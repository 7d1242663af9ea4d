-- ===== src/Pipeline/Orchestrator/Tests.antt =====
-- A confirmed order in good weather, in an outage, and while the broker is away; and a placed message that
-- cannot be inserted.
use dinner_rush.Prelude.{some, true, false, [], ◌∷◌, ◌≡◌, refl, List, Occurs}
use dinner_rush.Pipeline.States.{placed, confirmed, value, of_value}
use dinner_rush.Pipeline.Models.{Envelope, PlacedData, placed_order, make_event, op_id_for}
use dinner_rush.Pipeline.Store.{
  OrderRow, placed_row, empty, advance_command, insert_placed, commit_transition, move,
  update_state,
}
use dinner_rush.Pipeline.Store.Calls.{Call, placing, advancing, run_call, run_calls}
use dinner_rush.Pipeline.Store.Laws.{run_calls-IsStore, empty-IsStore}
use dinner_rush.Pipeline.Client.{returned}
use dinner_rush.Pipeline.Broker.{envelope, no_queues}
use dinner_rush.Pipeline.Orchestrator.{World, Weather, dropped, acked, on_advance, on_placed}
use dinner_rush.Pipeline.Orchestrator.Deliveries.{IsDelivered, on_advance-IsDelivered}
use dinner_rush.Pipeline.Orchestrator.Faults.{cut_off, cut_off-dropped, parked_placed-lost}

abbrev order_data : PlacedData
order_data = record {
  idempotency_key = some "k1";
  customer_id = some "c1";
  restaurant_id = some "fuego";
  items = [];
  total_cents = 24000;
}

abbrev calls : List Call
calls = placing "o1" order_data ∷ advancing "o1" placed 1 ∷ []

abbrev world : World
world = record { db = run_calls calls empty; queues = no_queues; done = [] }

abbrev row : OrderRow
row = record (placed_row order_data) { state = confirmed }

abbrev command : Envelope
command = advance_command "o1" confirmed

abbrev fair : Weather
fair = record {
  reads = true;
  cancels = false;
  caches = true;
  outcome = returned "{}";
  meanwhile = [];
  commits = true;
  publishes = true;
  publishes_fault = true;
}

on_advance-IsDelivered_example :
    IsDelivered fair command confirmed world (on_advance fair (envelope command) world)
unfolding value of_value
on_advance-IsDelivered_example =
    on_advance-IsDelivered fair command confirmed world refl refl
      (run_calls-IsStore calls empty empty-IsStore)

cut_off-dropped_example : on_advance (cut_off [] true) (envelope command) world ≡ (world, dropped)
unfolding value of_value run_calls run_call insert_placed commit_transition move update_state
    op_id_for
cut_off-dropped_example = cut_off-dropped [] true command row world refl refl refl

abbrev announced : Envelope
announced = make_event "o2" (placed_order order_data)

abbrev stormy : Weather
stormy = record fair { commits = false }

parked_placed-lost_example :
    ((on_placed stormy true (envelope announced) world).1 ≡ acked)
    × ((on_placed stormy true (envelope announced) world).0.db ≡ world.db)
    × Occurs (envelope announced) (on_placed stormy true (envelope announced) world).0.queues.parked
    × ((on_advance fair (envelope announced) world).0.db ≡ world.db)
parked_placed-lost_example =
    parked_placed-lost stormy fair announced order_data 1 world world refl refl refl
