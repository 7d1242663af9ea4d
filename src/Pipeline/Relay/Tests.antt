-- ===== src/Pipeline/Relay/Tests.antt =====
-- Three rows in batches of two.
use dinner_rush.Prelude.{List, [], ◌∷◌, ◌≡◌, true, false, arith}
use dinner_rush.Pipeline.States.{State, placed, confirmed}
use dinner_rush.Pipeline.Store.{Outgoing, work, advance_command}
use dinner_rush.Pipeline.Broker.{no_queues}
use dinner_rush.Pipeline.Relay.{pending, drain_rounds}
use dinner_rush.Pipeline.Relay.Laws.{publish_all, drain_rounds-all}

abbrev row : State → Outgoing
row s = record { exchange = work; envelope = advance_command "o1" s; published = false }

abbrev rows : List Outgoing
rows = record (row placed) { published = true } ∷ row placed ∷ row confirmed ∷ row placed ∷ []

drain_rounds-all_example :
    (pending (drain_rounds 2 2 (rows, no_queues)).0 ≡ [])
    × ((drain_rounds 2 2 (rows, no_queues)).1 ≡ publish_all (pending rows) no_queues)
drain_rounds-all_example = drain_rounds-all 2 2 rows no_queues (omega arith)
