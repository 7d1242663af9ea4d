-- ===== src/Pipeline/Store/Tests.antt =====
-- An order that was placed and confirmed, and a late second confirmation.
use dinner_rush.Prelude.{[], ◌∷◌, refl, some, List}
use dinner_rush.Pipeline.States.{placed, confirmed}
use dinner_rush.Pipeline.Models.{PlacedData, op_id_for}
use dinner_rush.Pipeline.Store.{
  OrderRow, placed_row, empty, move, update_state, commit_transition, insert_placed,
}
use dinner_rush.Pipeline.Store.Calls.{Call, placing, advancing, run_call, run_calls}
use dinner_rush.Pipeline.Store.Lifecycle.{IsStep, commit_transition-IsStep}

abbrev order_data : PlacedData
order_data = record {
  idempotency_key = some "k1";
  customer_id = some "c1";
  restaurant_id = some "fuego";
  items = [];
  total_cents = 24000;
}

abbrev row : OrderRow
row = record (placed_row order_data) { state = confirmed }

abbrev calls : List Call
calls = placing "o1" order_data ∷ advancing "o1" placed 1 ∷ []

commit_transition-IsStep_example : IsStep "o1" placed confirmed 2 row (run_calls calls empty)
unfolding run_calls run_call insert_placed commit_transition move update_state op_id_for
commit_transition-IsStep_example = commit_transition-IsStep calls "o1" placed confirmed 2 row refl
