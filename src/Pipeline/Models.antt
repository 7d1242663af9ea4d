-- ===== src/Pipeline/Models.antt =====
-- The messages of the pipeline, libs/drcommon/drcommon/models.py: envelopes and the id of a step. The id
-- and the time of an event, which no consumer reads, are left out.
pub mod Laws
use dinner_rush.Prelude.{ℕ, String, Option, List}
use dinner_rush.Prelude.Text.{◌+s◌}
use dinner_rush.Orders.Ingestion.{IngestItem}
use dinner_rush.Pipeline.States.{State, value}

unfoldable pub op_id_for : String → State → State → String
unfolding value
op_id_for order_id from_state to_state =
    order_id +s ":" +s value from_state +s "->" +s value to_state

pub record PlacedData : Type 0 where
  pub idempotency_key : Option String
  pub customer_id : Option String
  pub restaurant_id : Option String
  pub items : List IngestItem
  pub total_cents : ℕ

-- The contents of `data` for `order.placed`, `order.advance` and `order.transition`.
pub data Payload : Type 0 where
  placed_order : PlacedData → Payload
  advance_from : String → Payload
  moved : State → State → String → ℕ → Payload

pub record Envelope : Type 0 where
  pub order_id : String
  pub attempt : ℕ
  pub payload : Payload

-- `make_event`: the attempt of a new envelope is 1.
abbrev pub make_event : String → Payload → Envelope
make_event order_id payload = record { order_id = order_id; attempt = 1; payload = payload }
