-- ===== src/Pipeline/System/Tests.antt =====
-- An order that is placed, sent on, confirmed twice over and sent on again.
use dinner_rush.Prelude.{ℕ, Bool, some, true, false, [], ◌∷◌, refl, List}
use dinner_rush.Pipeline.States.{placed, confirmed, value, of_value}
use dinner_rush.Pipeline.Models.{PlacedData, placed_order, make_event, op_id_for}
use dinner_rush.Pipeline.Store.{
  OrderRow, placed_row, advance_command, insert_placed, commit_transition, move, update_state,
}
use dinner_rush.Pipeline.Store.Calls.{run_calls}
use dinner_rush.Pipeline.Store.Lifecycle.{IsLifecycle}
use dinner_rush.Pipeline.Client.{returned}
use dinner_rush.Pipeline.Broker.{Body, envelope}
use dinner_rush.Pipeline.Orchestrator.{
  Weather, on_advance, on_placed, caught, advance, at_row, at_state, drive, staged, answered,
  commit_step, settle,
}
use dinner_rush.Pipeline.System.{
  Step, delivers, places, relays, run_step, run_steps, started, run_steps-IsLifecycle,
}

abbrev order_data : PlacedData
order_data = record {
  idempotency_key = some "k1";
  customer_id = some "c1";
  restaurant_id = some "fuego";
  items = [];
  total_cents = 24000;
}

abbrev fair : Weather
fair = record {
  reads = true;
  cancels = false;
  caches = true;
  outcome = returned "{}";
  meanwhile = [];
  commits = true;
  publishes = true;
  publishes_fault = true;
}

abbrev confirms : ℕ → Bool
confirms n = true

abbrev command : Body
command = envelope (advance_command "o1" placed)

abbrev steps : List Step
steps =
    places fair false (envelope (make_event "o1" (placed_order order_data)))
    ∷ relays 128 confirms
    ∷ delivers fair command
    ∷ delivers fair command
    ∷ relays 128 confirms
    ∷ []

abbrev row : OrderRow
row = record (placed_row order_data) { state = confirmed }

run_steps-IsLifecycle_example : IsLifecycle "o1" row (run_steps steps started).db
unfolding run_steps run_step on_placed on_advance caught advance at_row at_state drive staged
    answered commit_step settle run_calls insert_placed commit_transition move update_state value
    of_value op_id_for
run_steps-IsLifecycle_example = run_steps-IsLifecycle steps "o1" row refl
