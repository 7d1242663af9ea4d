-- ===== src/Pipeline/Orchestrator/Safety.antt =====
-- What every delivery of the work queue keeps, whatever the message is.
use dinner_rush.Prelude.{
  Bool, true, false, Option, none, some, ◌≡◌, inl, inr, refl, sym, subst, if◌then◌else◌, Bool-cases,
}
use dinner_rush.Prelude.Maps.{lookup}
use dinner_rush.Pipeline.States.{State, same, same→eq, is_terminal}
use dinner_rush.Pipeline.Models.{Envelope}
use dinner_rush.Pipeline.Store.{OrderRow}
use dinner_rush.Pipeline.Store.Laws.{IsStore, placed-IsStore}
use dinner_rush.Pipeline.Broker.{Body, envelope, poison}
use dinner_rush.Pipeline.Orchestrator.{
  World, Weather, Fate, acked, dropped, requeued, raises, retry_or_dlq,
}
use dinner_rush.Pipeline.Orchestrator.{
  at_state, at_row, advance, from_of, give_up, fault, caught, on_advance, on_placed, placed_data,
}
use dinner_rush.Pipeline.Orchestrator.Laws.{
  Bounded, Reaches, Reaches-refl, Reaches-trans, retry-IsHandled,
}
use dinner_rush.Pipeline.Orchestrator.Deliveries.{advance-IsHandled}
use dinner_rush.Pipeline.States.{placed}
use dinner_rush.Pipeline.Broker.{send_raw_to_dlq}

-- The part that holds for every message.
pub record IsSafe (w : World) (r : World × Fate) : Type 0 where
  pub reaches : Reaches w.db r.0.db
  pub bounded : Bounded w.queues.retries → Bounded r.0.queues.retries

unchanged : (w : World) (f : Fate) → IsSafe w (w, f)
unchanged w f = record { reaches = Reaches-refl w.db; bounded = λ b. b }

parked-Bounded : (w : World) → Bounded w.queues.retries → Bounded (send_raw_to_dlq w.queues).retries
unfolding send_raw_to_dlq
parked-Bounded w k = k

given_up-IsSafe : (w : World) (x : World × Fate) → IsSafe w x → IsSafe w (give_up x)
unfolding give_up
given_up-IsSafe w (v, acked) h = h
given_up-IsSafe w (v, dropped) h = h
given_up-IsSafe w (v, requeued) h = h
given_up-IsSafe w (v, raises n) h = record { reaches = h.reaches; bounded = h.bounded }

retry-IsSafe : (b : Bool) (env : Envelope) (s : State) (w : World) → IsSafe w (retry_or_dlq b env w)
retry-IsSafe b env s w =
    let h = retry-IsHandled b env s w in record { reaches = h.reaches; bounded = h.bounded }

at_state-end :
    (cur s : State) (t : Weather) (env : Envelope) (w : World)
    → is_terminal s ≡ true
    → at_state cur t env s w ≡ (w, acked)
unfolding at_state
at_state-end cur s t env w end = elim (Bool-cases (same cur s)) [
  | inr off ↦ rw off refl
  | inl at_ ↦
      let stops : is_terminal cur ≡ true =
        subst (λ x. is_terminal x ≡ true) (sym (same→eq cur s at_)) end in
      rw at_ (rw stops refl)
]

fault-IsSafe : (t : Weather) (body : Body) (w : World) → IsSafe w (fault t body w)
unfolding fault
fault-IsSafe t poison w = by_publish t.publishes_fault
  where
    by_publish :
        (b : Bool)
        → IsSafe w
            (if b then (record w { queues = send_raw_to_dlq w.queues }, acked) else (w, dropped))
    by_publish true = record { reaches = Reaches-refl w.db; bounded = λ k. parked-Bounded w k }
    by_publish false = unchanged w dropped
fault-IsSafe t (envelope env) w =
    given_up-IsSafe w (retry_or_dlq t.publishes_fault env w)
      (retry-IsSafe t.publishes_fault env placed w)

later : (w v : World) (x : World × Fate) {f : Fate} → IsSafe w (v, f) → IsSafe v x → IsSafe w x
later w v x h k = record {
  reaches = Reaches-trans w.db v.db x.0.db h.reaches k.reaches;
  bounded = λ b. k.bounded (h.bounded b);
}

caught-IsSafe :
    (t : Weather) (body : Body) (w : World) (x : World × Fate)
    → IsSafe w x
    → IsSafe w (caught t body x)
unfolding caught
caught-IsSafe t body w (v, acked) h = h
caught-IsSafe t body w (v, dropped) h = h
caught-IsSafe t body w (v, requeued) h = h
caught-IsSafe t poison w (v, raises n) h = later w v (fault t poison v) h (fault-IsSafe t poison v)
caught-IsSafe t (envelope env) w (v, raises n) h =
    later w v (fault t (envelope (record env { attempt = n })) v) h
      (fault-IsSafe t (envelope (record env { attempt = n })) v)

ended-IsSafe :
    (o : Option OrderRow) (t : Weather) (env : Envelope) (s : State) (w : World)
    → is_terminal s ≡ true
    → IsSafe w (at_row o t env s w)
unfolding at_row
ended-IsSafe none t env s w end = retry-IsSafe t.publishes env s w
ended-IsSafe (some row) t env s w end =
    rw (at_state-end row.state s t env w end) (unchanged w acked)

advance-IsSafe :
    (o : Option State) (t : Weather) (env : Envelope) (w : World)
    → IsStore w.db
    → IsSafe w (advance o t env w)
unfolding advance
advance-IsSafe none t env w h = unchanged w (raises env.attempt)
advance-IsSafe (some s) t env w h = elim (Bool-cases (is_terminal s)) [
  | inr live ↦
      let k = advance-IsHandled t env s w live h in
      record { reaches = k.reaches; bounded = k.bounded }
  | inl end ↦ by_read end t.reads
]
  where
    by_read :
        is_terminal s ≡ true
        → (b : Bool)
        → IsSafe w (
            if b
            then at_row (lookup env.order_id w.db.orders) t env s w
            else (w, raises env.attempt))
    by_read end true = ended-IsSafe (lookup env.order_id w.db.orders) t env s w end
    by_read end false = unchanged w (raises env.attempt)

pub on_advance-IsSafe :
    (t : Weather) (body : Body) (w : World) → IsStore w.db → IsSafe w (on_advance t body w)
unfolding on_advance
on_advance-IsSafe t poison w h = fault-IsSafe t poison w
on_advance-IsSafe t (envelope env) w h =
    caught-IsSafe t (envelope env) w (advance (from_of env.payload) t env w)
      (advance-IsSafe (from_of env.payload) t env w h)

pub on_placed-IsStore :
    (t : Weather) (redelivered : Bool) (body : Body) (w : World)
    → IsStore w.db
    → IsStore (on_placed t redelivered body w).0.db
unfolding on_placed
on_placed-IsStore t redelivered poison w h = elim (Bool-cases t.publishes) [
  | inl on ↦ rw on h
  | inr off ↦ rw off h
]
on_placed-IsStore t redelivered (envelope env) w h = elim (Bool-cases t.commits) [
  | inl on ↦ rw on (placed-IsStore env.order_id (placed_data env.payload) w.db h)
  | inr off ↦ rw off (elim (Bool-cases redelivered) [
    | inr once ↦ rw once h
    | inl again ↦
        rw again (elim (Bool-cases t.publishes) [ inl up ↦ rw up h | inr down ↦ rw down h ])
  ])
]
