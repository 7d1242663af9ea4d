-- ===== src/Pipeline/Orchestrator/Deliveries.antt =====
-- The delivery of a command as a whole.
use dinner_rush.Prelude.{
  ℕ, ◌+◌, ◌≤◌, String, Bool, true, false, Option, none, some, ◌≡◌, ◌⊎◌, inl, inr, refl, sym, subst,
  arith, if◌then◌else◌, Bool-cases, ◌&&◌,
}
use dinner_rush.Prelude.Maps.{lookup, includes}
use dinner_rush.Pipeline.States.{
  State, same, same→eq, is_terminal, next_happy_state, next_or_terminal, stage_downstream,
  cancelled, failed,
}
use dinner_rush.Pipeline.Models.{Envelope, op_id_for}
use dinner_rush.Pipeline.Store.{OrderRow, cancel, fail_order}
use dinner_rush.Pipeline.Store.Calls.{
  run_calls, cancelling, failing, is_early, runs-cancelling, runs-failing,
}
use dinner_rush.Pipeline.Store.Laws.{IsStore, run_calls-IsStore}
use dinner_rush.Pipeline.Store.Departure.{Left, claimed-Left, other-Left, move-Departs}
use dinner_rush.Pipeline.Broker.{envelope}
use dinner_rush.Pipeline.Orchestrator.{
  World, Weather, Fate, acked, dropped, requeued, raises, retry_or_dlq,
}
use dinner_rush.Pipeline.Orchestrator.{
  answered, staged, drive, at_state, at_row, advance, from_of, give_up, fault, caught, on_advance,
  cause_of,
}
use dinner_rush.Pipeline.Orchestrator.Laws.{
  IsKept, Bounded, Reaches, Reaches-refl, Reaches-trans, retry-acked, IsHandled, retry-IsHandled,
  commit_step-IsHandled, end_order-IsHandled,
}
use dinner_rush.Pipeline.Client.{
  Outcome, returned, unparsed, permanent, transient, breaker_open, escaped,
}

raised : (env : Envelope) (s : State) (w : World) → IsHandled env s w (w, raises env.attempt)
raised env s w = record {
  reaches = Reaches-refl w.db;
  bounded = λ b. b;
  safe = inl (env.attempt, omega arith, refl);
}

gone :
    (env : Envelope) (s : State) (w : World)
    → Left env.order_id s w.db.orders
    → IsHandled env s w (w, acked)
gone env s w left = record {
  reaches = Reaches-refl w.db;
  bounded = λ b. b;
  safe = inr (refl, inl left);
}

answered-IsHandled :
    (o : Outcome) (name : String) (t : Weather) (env : Envelope) (cur tgt : State) (w : World)
    → next_happy_state cur ≡ some tgt
    → is_terminal cur ≡ false
    → IsStore w.db
    → IsHandled env cur w (answered o name t env cur tgt w)
unfolding answered fail_order
answered-IsHandled (returned json) name t env cur tgt w e live h =
    commit_step-IsHandled t env cur tgt w e h
answered-IsHandled unparsed name t env cur tgt w e live h = raised env cur w
answered-IsHandled escaped name t env cur tgt w e live h = raised env cur w
answered-IsHandled transient name t env cur tgt w e live h = retry-IsHandled t.publishes env cur w
answered-IsHandled breaker_open name t env cur tgt w e live h =
    retry-IsHandled t.publishes env cur w
answered-IsHandled (permanent status) name t env cur tgt w e live h =
    let db = run_calls t.meanwhile w.db in
    end_order-IsHandled t env cur (fail_order env.order_id cur (cause_of name status) env.attempt) w
      (failing env.order_id cur (cause_of name status) env.attempt)
      (move-Departs env.order_id cur failed (cause_of name status) env.attempt db
        (ground (arith, live)) (run_calls-IsStore t.meanwhile w.db h).history)
      (runs-failing env.order_id cur (cause_of name status) env.attempt db live)

staged-IsHandled :
    (o : Option String) (t : Weather) (env : Envelope) (cur tgt : State) (w : World)
    → next_happy_state cur ≡ some tgt
    → is_terminal cur ≡ false
    → IsStore w.db
    → IsHandled env cur w (staged o t env cur tgt w)
unfolding staged
staged-IsHandled none t env cur tgt w e live h = commit_step-IsHandled t env cur tgt w e h
staged-IsHandled (some name) t env cur tgt w e live h =
    answered-IsHandled t.outcome name t env cur tgt w e live h

drive-IsHandled :
    (o : Option State) (t : Weather) (env : Envelope) (cur : State) (w : World)
    → next_happy_state cur ≡ o
    → is_terminal cur ≡ false
    → IsStore w.db
    → IsHandled env cur w (drive o t env cur w)
unfolding drive
drive-IsHandled none t env cur w e live h = let (tgt, on) = next_or_terminal cur live in absurd (cc)
drive-IsHandled (some tgt) t env cur w e live h =
    let op_id = op_id_for env.order_id cur tgt in
    elim (Bool-cases (t.caches && includes w.done op_id && includes w.db.operations op_id)) [
      | inl skip ↦
          rw skip (
            gone env cur w
              (claimed-Left env.order_id cur tgt w.db h.history (ground (arith, skip))))
      | inr go ↦ rw go (staged-IsHandled (stage_downstream tgt) t env cur tgt w e live h)
    ]

-- The order is in the state that the command names, and goes on from there.
live-IsHandled :
    (row : OrderRow) (t : Weather) (env : Envelope) (s : State) (w : World)
    → same row.state s ≡ true
    → is_terminal row.state ≡ false
    → IsStore w.db
    → IsHandled env row.state w (at_row (some row) t env s w)
unfolding at_row at_state cancel
live-IsHandled row t env s w at_ live h = elim (Bool-cases (t.cancels && is_early row.state)) [
  | inl ends ↦
      let db = run_calls t.meanwhile w.db in
      let early : is_early row.state ≡ true = ground (arith, ends) in
      rw at_ (
        rw live (
          rw ends (
            end_order-IsHandled t env row.state (cancel env.order_id row.state env.attempt) w
              (cancelling env.order_id row.state env.attempt)
              (move-Departs env.order_id row.state cancelled "customer_cancelled" env.attempt db
                (ground (arith, early)) (run_calls-IsStore t.meanwhile w.db h).history)
              (runs-cancelling env.order_id row.state env.attempt db early))))
  | inr on ↦
      rw at_ (
        rw live
          (rw on (drive-IsHandled (next_happy_state row.state) t env row.state w refl live h)))
]

at_row-IsHandled :
    (o : Option OrderRow) (t : Weather) (env : Envelope) (s : State) (w : World)
    → lookup env.order_id w.db.orders ≡ o
    → is_terminal s ≡ false
    → IsStore w.db
    → IsHandled env s w (at_row o t env s w)
unfolding at_row at_state
at_row-IsHandled none t env s w e live h = retry-IsHandled t.publishes env s w
at_row-IsHandled (some row) t env s w e live h = elim (Bool-cases (same row.state s)) [
  | inr off ↦ rw off (gone env s w (other-Left env.order_id s row w.db.orders e off))
  | inl at_ ↦
      let here = same→eq row.state s at_ in
      subst (λ x. IsHandled env x w (at_row (some row) t env s w)) here
        (live-IsHandled row t env s w at_ (subst (λ x. is_terminal x ≡ false) (sym here) live) h)
]

pub advance-IsHandled :
    (t : Weather) (env : Envelope) (s : State) (w : World)
    → is_terminal s ≡ false
    → IsStore w.db
    → IsHandled env s w (advance (some s) t env w)
unfolding advance
advance-IsHandled t env s w live h = by_read t.reads
  where
    by_read :
        (b : Bool)
        → IsHandled env s w (
            if b
            then at_row (lookup env.order_id w.db.orders) t env s w
            else (w, raises env.attempt))
    by_read true = at_row-IsHandled (lookup env.order_id w.db.orders) t env s w refl live h
    by_read false = raised env s w

-- What a delivery of a command that names the state `s` comes to.
pub record IsDelivered (t : Weather) (env : Envelope) (s : State) (w : World) (r : World × Fate)
    : Type 0 where
  pub reaches : Reaches w.db r.0.db
  pub bounded : Bounded w.queues.retries → Bounded r.0.queues.retries
  pub safe :
      ((r.1 ≡ dropped) × (t.publishes_fault ≡ false))
      ⊎ ((r.1 ≡ acked)
          × (Left env.order_id s r.0.db.orders ⊎ IsKept (env.attempt + 2) env r.0.queues))

-- The envelope with the attempt that it has in the fault handler.
abbrev counted : ℕ → Envelope → Envelope
counted n env = record env { attempt = n }

fault-IsDelivered :
    (b : Bool) (t : Weather) (env : Envelope) (s : State) (n : ℕ) (w w' : World)
    → n ≤ env.attempt + 1
    → t.publishes_fault ≡ b
    → Reaches w.db w'.db
    → (Bounded w.queues.retries → Bounded w'.queues.retries)
    → IsDelivered t env s w (give_up (retry_or_dlq b (counted n env) w'))
unfolding give_up retry_or_dlq
fault-IsDelivered false t env s n w w' m off r k = record {
  reaches = r;
  bounded = k;
  safe = inl (refl, off);
}
fault-IsDelivered true t env s n w w' m on r k =
    from (retry_or_dlq true (counted n env) w') (retry-acked (counted n env) w')
      (retry-IsHandled true (counted n env) s w')
  where
    from :
        (x : World × Fate)
        → x.1 ≡ acked
        → IsHandled (counted n env) s w' x
        → IsDelivered t env s w (give_up x)
    from (v, raises i) e h = absurd (cc)
    from (v, dropped) e h = absurd (cc)
    from (v, requeued) e h = absurd (cc)
    from (v, acked) e h = record {
      reaches = Reaches-trans w.db w'.db v.db r h.reaches;
      bounded = λ b. h.bounded (k b);
      safe = elim h.safe [
        | inl (i, l, wrong) ↦ absurd (cc)
        | inr (ok, inl left) ↦ inr (ok, inl left)
        | inr (ok, inr (i, l, kept)) ↦ inr (ok, inr (i, omega (arith, l, m), kept))
      ];
    }

caught-IsDelivered :
    (t : Weather) (env : Envelope) (s : State) (w w' : World) (f : Fate)
    → IsHandled env s w (w', f)
    → IsDelivered t env s w (caught t (envelope env) (w', f))
unfolding caught fault
caught-IsDelivered t env s w w' (raises n) h = elim h.safe [
  | inl (i, l, e) ↦
      let same_n : n ≡ i = ground (arith, e) in
      fault-IsDelivered t.publishes_fault t env s n w w' (omega (arith, l, same_n)) refl h.reaches
        h.bounded
  | inr (e, k) ↦ absurd (cc)
]
caught-IsDelivered t env s w w' acked h = record {
  reaches = h.reaches;
  bounded = h.bounded;
  safe = elim h.safe [
    | inl (i, l, wrong) ↦ absurd (cc)
    | inr (ok, inl left) ↦ inr (ok, inl left)
    | inr (ok, inr (i, l, kept)) ↦ inr (ok, inr (i, omega (arith, l), kept))
  ];
}
caught-IsDelivered t env s w w' dropped h = elim h.safe [
  | inl (i, l, e) ↦ absurd (cc)
  | inr (e, k) ↦ absurd (cc)
]
caught-IsDelivered t env s w w' requeued h = elim h.safe [
  | inl (i, l, e) ↦ absurd (cc)
  | inr (e, k) ↦ absurd (cc)
]

-- A delivery of a command that names a state which goes on, in any weather. Either the broker fails even
-- for the fault handler, and the message is dropped, or it is acknowledged and then no row of the order is
-- in that state, or the command waits for a retry or is parked, with at most two more attempts counted. The tables
-- change by transactions of the store only, and no command waits for more than its sixth attempt.
pub on_advance-IsDelivered :
    (t : Weather) (env : Envelope) (s : State) (w : World)
    → from_of env.payload ≡ some s
    → is_terminal s ≡ false
    → IsStore w.db
    → IsDelivered t env s w (on_advance t (envelope env) w)
unfolding on_advance
on_advance-IsDelivered t env s w from live h =
    subst (λ o. IsDelivered t env s w (caught t (envelope env) (advance o t env w))) (sym from)
      (caught-IsDelivered t env s w (advance (some s) t env w).0 (advance (some s) t env w).1
        (advance-IsHandled t env s w live h))
