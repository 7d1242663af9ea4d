-- ===== src/Pipeline/Orchestrator/Faults.antt =====
-- Two ways in which an order stops for good: its command is dropped while the broker is away, and its
-- `order.placed` is parked among the commands.
use dinner_rush.Prelude.{
  ℕ, ◌+◌, Bool, true, false, none, some, List, ◌≡◌, refl, ap, ◌∙◌, arith, if◌then◌else◌, Occurs,
  Occurs-append_right, inl, inr, Bool-cases, leb,
}
use dinner_rush.Prelude.Maps.{lookup}
use dinner_rush.Pipeline.States.{
  State, placed, confirmed, preparing, ready, out_for_delivery, delivered, cancelled, failed,
}
use dinner_rush.Pipeline.Models.{Envelope, PlacedData, placed_order}
use dinner_rush.Pipeline.Store.{OrderRow}
use dinner_rush.Pipeline.Store.Calls.{Call}
use dinner_rush.Pipeline.Client.{transient}
use dinner_rush.Pipeline.Broker.{envelope, send_to_dlq, publish_envelope}
use dinner_rush.Pipeline.Orchestrator.{
  World, Weather, acked, dropped, raises, retry_or_dlq, answered, staged, drive, at_state, at_row,
  advance, from_of, give_up, fault, caught, on_advance, on_placed, broker_max_attempts,
}

-- A service fails while the broker confirms nothing.
abbrev pub cut_off : List Call → Bool → Weather
cut_off meanwhile commits = record {
  reads = true;
  cancels = false;
  caches = false;
  outcome = transient;
  meanwhile = meanwhile;
  commits = commits;
  publishes = false;
  publishes_fault = false;
}

abbrev pub calls_out : State → Bool
calls_out placed = true
calls_out confirmed = true
calls_out ready = true
calls_out _ = false

at_state-cut_off :
    (cs : List Call) (b : Bool) (env : Envelope) (cur : State) (w : World)
    → calls_out cur ≡ true
    → at_state cur (cut_off cs b) env cur w
      ≡ (w, raises (if leb broker_max_attempts env.attempt then env.attempt else env.attempt + 1))
unfolding at_state drive staged answered retry_or_dlq
at_state-cut_off cs b env placed w c = refl
at_state-cut_off cs b env confirmed w c = refl
at_state-cut_off cs b env ready w c = refl
at_state-cut_off cs b env preparing w c = absurd (cc)
at_state-cut_off cs b env out_for_delivery w c = absurd (cc)
at_state-cut_off cs b env delivered w c = absurd (cc)
at_state-cut_off cs b env cancelled w c = absurd (cc)
at_state-cut_off cs b env failed w c = absurd (cc)

-- A command whose service fails while the broker confirms nothing is dropped: the order stays where it
-- is, and no queue holds a command of it that was not there before.
pub cut_off-dropped :
    (cs : List Call) (b : Bool) (env : Envelope) (row : OrderRow) (w : World)
    → from_of env.payload ≡ some row.state
    → calls_out row.state ≡ true
    → lookup env.order_id w.db.orders ≡ some row
    → on_advance (cut_off cs b) (envelope env) w ≡ (w, dropped)
unfolding on_advance advance at_row caught fault give_up retry_or_dlq
cut_off-dropped cs b env row w from out found =
    ap (λ o. caught (cut_off cs b) (envelope env) (advance o (cut_off cs b) env w)) from
    ∙ ap (λ o. caught (cut_off cs b) (envelope env) (at_row o (cut_off cs b) env row.state w)) found
    ∙ ap (λ r. caught (cut_off cs b) (envelope env) r) (at_state-cut_off cs b env row.state w out)

-- A delivery of a message with no state to start from.
no_state :
    (t : Weather) (env : Envelope) (w : World)
    → from_of env.payload ≡ none
    → (on_advance t (envelope env) w).0.db ≡ w.db
unfolding on_advance advance caught fault give_up retry_or_dlq
no_state t env w e =
    ap (λ o. (caught t (envelope env) (advance o t env w)).0.db) e ∙ by_publish t.publishes_fault
  where
    by_publish : (b : Bool) → (give_up (retry_or_dlq b env w)).0.db ≡ w.db
    by_publish false = refl
    by_publish true = elim (Bool-cases (leb broker_max_attempts env.attempt)) [
      | inl last ↦ rw last refl
      | inr more ↦ rw more refl
    ]

placed-parked :
    (t : Weather) (env : Envelope) (w : World)
    → t.commits ≡ false
    → t.publishes ≡ true
    → on_placed t true (envelope env) w ≡ (record w { queues = send_to_dlq env w.queues }, acked)
unfolding on_placed
placed-parked t env w c p = ground arith

-- An `order.placed` that cannot be inserted twice is parked among the commands, and nothing that is made
-- of it later inserts the order: a replay sends it to `on_advance`, which changes no table for it.
pub parked_placed-lost :
    (t t' : Weather) (env : Envelope) (d : PlacedData) (n : ℕ) (w v : World)
    → env.payload ≡ placed_order d
    → t.commits ≡ false
    → t.publishes ≡ true
    → let (after, fate) = on_placed t true (envelope env) w in
      (fate ≡ acked)
      × (after.db ≡ w.db)
      × Occurs (envelope env) after.queues.parked
      × ((on_advance t' (envelope (record env { attempt = n })) v).0.db ≡ v.db)
unfolding send_to_dlq publish_envelope
parked_placed-lost t t' env d n w v e c p = rw (placed-parked t env w c p) (
  refl,
  refl,
  Occurs-append_right _ w.queues.parked _ (inl refl),
  no_state t' (record env { attempt = n }) v (ap from_of e),
)
