-- ===== src/Pipeline/Orchestrator/Laws.antt =====
-- What a delivery does: it changes the tables by transactions of the store only, and a command that has not
-- moved its order on is not lost unless the broker fails twice.
use dinner_rush.Prelude.{
  ℕ, ◌+◌, ◌≤◌, String, Bool, true, false, Option, none, some, List, [], ◌∷◌, ◌++◌, ◌≡◌, ◌⊎◌, inl,
  inr, refl, sym, ap, ◌∙◌, arith, leb, if◌then◌else◌, Bool-cases, All, All-append, Occurs,
  Occurs-append_right,
}
use dinner_rush.Pipeline.States.{State, next_happy_state, next_happy_state_lem}
use dinner_rush.Pipeline.Models.{Envelope}
use dinner_rush.Pipeline.Store.{Db, Commit, applied, duplicate, raced, commit_transition}
use dinner_rush.Pipeline.Store.Calls.{
  Call, run_calls, after, advancing, run_calls-append, run_calls-nil, runs-advancing,
}
use dinner_rush.Pipeline.Store.Laws.{IsStore, run_calls-IsStore}
use dinner_rush.Pipeline.Store.Departure.{Left, Departs, next-Departs}
use dinner_rush.Pipeline.Broker.{envelope, Queues, schedule_retry, send_to_dlq, publish_envelope}
use dinner_rush.Pipeline.Orchestrator.{
  World, Weather, Fate, acked, raises, retry_or_dlq, settle, commit_step, end_order,
  broker_max_attempts,
}

-- Where the command of a delivery is kept: it waits for a retry or is parked, with an attempt of at most
-- `most`.
abbrev pub IsKept : ℕ → Envelope → Queues → Type 0
IsKept most env q =
    (n : ℕ) × (n ≤ most)
    × (Occurs (record env { attempt = n }) q.retries
        ⊎ Occurs (envelope (record env { attempt = n })) q.parked)

abbrev pub IsRaised : Envelope → Fate → Type 0
IsRaised env f = (n : ℕ) × (n ≤ env.attempt + 1) × (f ≡ raises n)

abbrev pub Reaches : Db → Db → Type 0
Reaches db next = (cs : List Call) × (next ≡ run_calls cs db)

pub Reaches-refl : (db : Db) → Reaches db db
Reaches-refl db = ([], run_calls-nil db)

pub Reaches-trans : (a b c : Db) → Reaches a b → Reaches b c → Reaches a c
Reaches-trans a b c (cs, e) (ds, f) =
    (cs ++ ds, f ∙ ap (run_calls ds) e ∙ sym (run_calls-append cs ds a))

-- No command waits for more than the last attempt.
abbrev pub Bounded : List Envelope → Type 0
Bounded retries = All (λ (e : Envelope). e.attempt ≤ broker_max_attempts) retries

pub record IsHandled (env : Envelope) (s : State) (w : World) (r : World × Fate) : Type 0 where
  pub reaches : Reaches w.db r.0.db
  pub bounded : Bounded w.queues.retries → Bounded r.0.queues.retries
  pub safe :
      IsRaised env r.1
      ⊎ ((r.1 ≡ acked)
          × (Left env.order_id s r.0.db.orders ⊎ IsKept (env.attempt + 1) env r.0.queues))

pub retry-IsHandled :
    (publishes : Bool) (env : Envelope) (s : State) (w : World)
    → IsHandled env s w (retry_or_dlq publishes env w)
unfolding retry_or_dlq schedule_retry send_to_dlq publish_envelope
retry-IsHandled false env s w = record {
  reaches = Reaches-refl w.db;
  bounded = λ b. b;
  safe = inl (
    if leb broker_max_attempts env.attempt then env.attempt else env.attempt + 1,
    ground arith,
    refl,
  );
}
retry-IsHandled true env s w = elim (Bool-cases (leb broker_max_attempts env.attempt)) [
  | inl last ↦ rw last (record {
    reaches = Reaches-refl w.db;
    bounded = λ b. b;
    safe = inr (
      refl,
      inr (env.attempt, omega arith, inr (Occurs-append_right _ w.queues.parked _ (inl refl))),
    );
  })
  | inr more ↦ rw more (record {
    reaches = Reaches-refl w.db;
    bounded = λ b.
        All-append (λ (e : Envelope). e.attempt ≤ broker_max_attempts) w.queues.retries _ b
          (ground (arith, more), tt);
    safe = inr (
      refl,
      inr (env.attempt + 1, omega arith, inl (Occurs-append_right _ w.queues.retries _ (inl refl))),
    );
  })
]

pub retry-acked : (env : Envelope) (w : World) → (retry_or_dlq true env w).1 ≡ acked
unfolding retry_or_dlq
retry-acked env w = ground arith

settle-IsHandled :
    (env : Envelope) (s : State) (w : World) (db : Db) (op : Option String) (c : Commit)
    → Reaches w.db db
    → Reaches w.db (after db c)
    → Departs env.order_id s db c
    → IsHandled env s w (settle w db env.attempt op c)
unfolding settle
settle-IsHandled env s w db op (applied next) b a (inl e) = absurd (cc)
settle-IsHandled env s w db op (applied next) b a (inr e) = record {
  reaches = a;
  bounded = λ b. b;
  safe = inr (refl, inl e);
}
settle-IsHandled env s w db op duplicate b a (inl e) = absurd (cc)
settle-IsHandled env s w db op duplicate b a (inr e) = record {
  reaches = b;
  bounded = λ b. b;
  safe = inr (refl, inl e);
}
settle-IsHandled env s w db op raced b a d = record {
  reaches = b;
  bounded = λ b. b;
  safe = inl (env.attempt, omega arith, refl);
}

-- Transactions after those that other deliveries made meanwhile.
meanwhile-Reaches :
    (w : World) (cs ds : List Call) (next : Db)
    → run_calls ds (run_calls cs w.db) ≡ next
    → Reaches w.db next
meanwhile-Reaches w cs ds next e = (cs ++ ds, sym (run_calls-append cs ds w.db ∙ e))

pub commit_step-IsHandled :
    (t : Weather) (env : Envelope) (cur tgt : State) (w : World)
    → next_happy_state cur ≡ some tgt
    → IsStore w.db
    → IsHandled env cur w (commit_step t env cur tgt w)
unfolding commit_step
commit_step-IsHandled t env cur tgt w e h = elim (Bool-cases t.commits) [
  | inr off ↦ rw off (record {
    reaches = (t.meanwhile, refl);
    bounded = λ b. b;
    safe = inl (env.attempt, omega arith, refl);
  })
  | inl on ↦ rw on (
      settle-IsHandled env cur w (run_calls t.meanwhile w.db) _
        (commit_transition env.order_id cur tgt env.attempt (run_calls t.meanwhile w.db))
        (t.meanwhile, refl)
        (meanwhile-Reaches w t.meanwhile (advancing env.order_id cur env.attempt ∷ []) _
          (runs-advancing env.order_id cur tgt env.attempt (run_calls t.meanwhile w.db) e))
        (next-Departs env.order_id cur tgt env.attempt (run_calls t.meanwhile w.db)
          (next_happy_state_lem cur tgt e).0 (run_calls-IsStore t.meanwhile w.db h).history))
]

pub end_order-IsHandled :
    (t : Weather) (env : Envelope) (cur : State) (commit : Db → Commit) (w : World) (c : Call)
    → Departs env.order_id cur (run_calls t.meanwhile w.db) (commit (run_calls t.meanwhile w.db))
    → run_calls (c ∷ []) (run_calls t.meanwhile w.db)
      ≡ after (run_calls t.meanwhile w.db) (commit (run_calls t.meanwhile w.db))
    → IsHandled env cur w (end_order t env.attempt commit w)
unfolding end_order
end_order-IsHandled t env cur commit w c d e = elim (Bool-cases t.commits) [
  | inr off ↦ rw off (record {
    reaches = (t.meanwhile, refl);
    bounded = λ b. b;
    safe = inl (env.attempt, omega arith, refl);
  })
  | inl on ↦ rw on (
      settle-IsHandled env cur w (run_calls t.meanwhile w.db) none
        (commit (run_calls t.meanwhile w.db)) (t.meanwhile, refl)
        (meanwhile-Reaches w t.meanwhile (c ∷ []) _ e) d)
]
