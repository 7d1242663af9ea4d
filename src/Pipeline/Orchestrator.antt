-- ===== src/Pipeline/Orchestrator.antt =====
-- The handlers of services/orchestrator/app/main.py. A delivery runs in a `Weather`: what the services
-- around it do meanwhile. Metrics, logs, the think time and the detail of a stage are left out.
pub mod Laws
pub mod Deliveries
pub mod Safety
mod Faults
mod Tests
use dinner_rush.Prelude.{
  ℕ, ◌+◌, String, Bool, true, false, not, Option, none, some, List, [], ◌∷◌, ◌++◌, if◌then◌else◌,
  leb, ◌&&◌, ◌||◌, str_eq,
}
use dinner_rush.Prelude.Text.{◌+s◌, decimal}
use dinner_rush.Prelude.Maps.{lookup, includes}
use dinner_rush.Pipeline.States.{
  State, of_value, same, is_terminal, next_happy_state, stage_downstream, can_transition,
}
use dinner_rush.Pipeline.Models.{
  Envelope, PlacedData, Payload, placed_order, advance_from, moved, op_id_for,
}
use dinner_rush.Pipeline.Store.{
  OrderRow, Db, Commit, applied, duplicate, raced, commit_transition, cancel, fail_order,
  insert_placed, dlx,
}
use dinner_rush.Pipeline.Store.Calls.{Call, run_calls, is_early}
use dinner_rush.Pipeline.Client.{
  Outcome, returned, unparsed, permanent, transient, breaker_open, escaped,
}
use dinner_rush.Pipeline.Broker.{
  Body, envelope, poison, Queues, schedule_retry, send_to_dlq, send_raw_to_dlq,
}

abbrev pub broker_max_attempts : ℕ
broker_max_attempts = 6

-- `done` are the keys that Redis holds.
pub record World : Type 0 where
  pub db : Db
  pub queues : Queues
  pub done : List String

-- Whether the row can be read, whether the customer cancels, whether Redis answers, what the downstream
-- call comes to, the transactions that other deliveries make between the read and the commit, whether the
-- commit succeeds, and whether the broker confirms the first publish, and that of the fault handler.
pub record Weather : Type 0 where
  pub reads : Bool
  pub cancels : Bool
  pub caches : Bool
  pub outcome : Outcome
  pub meanwhile : List Call
  pub commits : Bool
  pub publishes : Bool
  pub publishes_fault : Bool

-- How a message is settled: by `ack`, by `nack(requeue=False)`, which drops it since the work queue has no
-- dead-letter exchange, by `nack(requeue=True)`; `raises` is an exception that leaves the function, with the
-- attempt that the envelope has by then: `schedule_retry` counts it up before it publishes.
pub data Fate : Type 0 where
  acked : Fate
  dropped : Fate
  requeued : Fate
  raises : ℕ → Fate

pub retry_or_dlq : Bool → Envelope → World → World × Fate
retry_or_dlq publishes env w =
    if publishes
    then if leb broker_max_attempts env.attempt
      then (record w { queues = send_to_dlq env w.queues }, acked)
      else (record w { queues = schedule_retry env w.queues }, acked)
    else (w, raises (if leb broker_max_attempts env.attempt then env.attempt else env.attempt + 1))

-- `State(env.data["from"])`
abbrev pub from_of : Payload → Option State
from_of (placed_order d) = none
from_of (advance_from v) = of_value v
from_of (moved f t c n) = some f

-- The outcome of a transaction on what the tables are by then.
unfoldable pub settle : World → Db → ℕ → Option String → Commit → World × Fate
settle w db n op (applied next) =
    (record w { db = next; done = elim op [ none ↦ w.done | some key ↦ key ∷ w.done ] }, acked)
settle w db n op duplicate = (record w { db = db }, acked)
settle w db n op raced = (record w { db = db }, raises n)

unfoldable pub commit_step : Weather → Envelope → State → State → World → World × Fate
unfolding settle
commit_step t env current target w =
    let db = run_calls t.meanwhile w.db in
    if t.commits
    then settle w db env.attempt
        (if t.caches then some (op_id_for env.order_id current target) else none)
        (commit_transition env.order_id current target env.attempt db)
    else (record w { db = db }, raises env.attempt)

abbrev cause_of : String → ℕ → String
cause_of name status =
    (if str_eq name "payment" then "payment declined" else name +s " rejected")
    +s ": permanent downstream error "
    +s decimal status

-- A transaction that ends the order.
pub end_order : Weather → ℕ → (Db → Commit) → World → World × Fate
unfolding settle
end_order t n commit w =
    let db = run_calls t.meanwhile w.db in
    if t.commits then settle w db n none (commit db) else (record w { db = db }, raises n)

-- `_call_downstream` from the outcome of `post_json` on, and what follows it.
unfoldable pub answered :
    Outcome → String → Weather → Envelope → State → State → World → World × Fate
unfolding commit_step end_order
answered (returned json) name t env current target w = commit_step t env current target w
answered unparsed name t env current target w = (w, raises env.attempt)
answered escaped name t env current target w = (w, raises env.attempt)
answered transient name t env current target w = retry_or_dlq t.publishes env w
answered breaker_open name t env current target w = retry_or_dlq t.publishes env w
answered (permanent status) name t env current target w =
    end_order t env.attempt (fail_order env.order_id current (cause_of name status) env.attempt) w

-- A stage that calls a service, or none.
unfoldable pub staged : Option String → Weather → Envelope → State → State → World → World × Fate
unfolding answered commit_step
staged none t env current target w = commit_step t env current target w
staged (some name) t env current target w = answered t.outcome name t env current target w

unfoldable pub drive : Option State → Weather → Envelope → State → World → World × Fate
unfolding staged
drive none t env current w = (w, acked)
drive (some target) t env current w =
    let op_id = op_id_for env.order_id current target in
    if t.caches && includes w.done op_id && includes w.db.operations op_id
    then (w, acked)
    else staged (stage_downstream target) t env current target w

unfoldable pub at_state : State → Weather → Envelope → State → World → World × Fate
unfolding drive end_order
at_state current t env from_state w =
    if not (same current from_state) || is_terminal current
    then (w, acked)
    else if t.cancels && is_early current
    then end_order t env.attempt (cancel env.order_id current env.attempt) w
    else drive (next_happy_state current) t env current w

unfoldable pub at_row : Option OrderRow → Weather → Envelope → State → World → World × Fate
unfolding at_state
at_row none t env from_state w = retry_or_dlq t.publishes env w
at_row (some row) t env from_state w = at_state row.state t env from_state w

unfoldable pub advance : Option State → Weather → Envelope → World → World × Fate
unfolding at_row
advance none t env w = (w, raises env.attempt)
advance (some from_state) t env w =
    if t.reads
    then at_row (lookup env.order_id w.db.orders) t env from_state w
    else (w, raises env.attempt)

-- The last resort: a message whose fault cannot be published is dropped.
give_up : World × Fate → World × Fate
give_up (w, acked) = (w, acked)
give_up (w, dropped) = (w, dropped)
give_up (w, requeued) = (w, requeued)
give_up (w, raises n) = (w, dropped)

pub fault : Weather → Body → World → World × Fate
unfolding give_up
fault t poison w =
    if t.publishes_fault
    then (record w { queues = send_raw_to_dlq w.queues }, acked)
    else (w, dropped)
fault t (envelope env) w = give_up (retry_or_dlq t.publishes_fault env w)

-- The `except Exception` of `on_advance`. A cancellation, which passes it by, is outside the model, and so
-- is an `ack` or a `nack` that raises.
unfoldable pub caught : Weather → Body → World × Fate → World × Fate
unfolding fault
caught t body (w, acked) = (w, acked)
caught t body (w, dropped) = (w, dropped)
caught t body (w, requeued) = (w, requeued)
caught t poison (w, raises n) = fault t poison w
caught t (envelope env) (w, raises n) = fault t (envelope (record env { attempt = n })) w

unfoldable pub on_advance : Weather → Body → World → World × Fate
unfolding advance fault caught
on_advance t poison w = fault t poison w
on_advance t (envelope env) w = caught t (envelope env) (advance (from_of env.payload) t env w)

-- `env.data.get(…)` for each column: a key that is missing reads as null, or as the default.
abbrev no_placed_data : PlacedData
no_placed_data = record {
  idempotency_key = none;
  customer_id = none;
  restaurant_id = none;
  items = [];
  total_cents = 0;
}

abbrev pub placed_data : Payload → PlacedData
placed_data (placed_order d) = d
placed_data (advance_from v) = no_placed_data
placed_data (moved f to c n) = no_placed_data

-- `on_placed`, for a message that was delivered before or not.
unfoldable pub on_placed : Weather → Bool → Body → World → World × Fate
on_placed t redelivered poison w =
    if t.publishes then (record w { queues = send_raw_to_dlq w.queues }, acked) else (w, raises 0)
on_placed t redelivered (envelope env) w =
    if t.commits
    then (record w { db = insert_placed env.order_id (placed_data env.payload) w.db }, acked)
    else if redelivered
    then if t.publishes
      then (record w { queues = send_to_dlq env w.queues }, acked)
      else (w, raises env.attempt)
    else (w, requeued)
