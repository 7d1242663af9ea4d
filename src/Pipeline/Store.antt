-- ===== src/Pipeline/Store.antt =====
-- The orchestrator's tables and its transactions: services/orchestrator/app/main.py, with
-- libs/drcommon/drcommon/idempotency.py and outbox.py. A transaction that raises leaves the tables as they
-- were. The `result` and `kind` of an operation, which nothing reads, and the times are left out.
pub mod Commands
pub mod Calls
pub mod History
pub mod Laws
pub mod Lifecycle
pub mod Departure
mod Tests
use dinner_rush.Prelude.{
  ℕ, String, Bool, true, false, Option, none, some, get_or, List, [], ◌∷◌, ◌++◌, map, if◌then◌else◌,
}
use dinner_rush.Prelude.Maps.{lookup, insert, includes}
use dinner_rush.Orders.Ingestion.{IngestItem}
use dinner_rush.Pipeline.States.{State, placed, cancelled, failed, same, is_terminal, value}
use dinner_rush.Pipeline.Models.{
  Envelope, PlacedData, placed_order, advance_from, moved, make_event, op_id_for,
}

pub record OrderRow : Type 0 where
  pub state : State
  pub idempotency_key : Option String
  pub customer_id : Option String
  pub restaurant_id : Option String
  pub items : List IngestItem
  pub total_cents : ℕ

pub record Transition : Type 0 where
  pub order_id : String
  pub from_state : State
  pub to_state : State
  pub cause : String
  pub attempt : ℕ

pub data Exchange : Type 0 where
  events work retry dlx : Exchange

pub record Outgoing : Type 0 where
  pub exchange : Exchange
  pub envelope : Envelope
  pub published : Bool

pub record Db : Type 0 where
  pub orders : List (String × OrderRow)
  pub operations : List String
  pub transitions : List Transition
  pub outbox : List Outgoing

abbrev pub empty : Db
empty = record { orders = []; operations = []; transitions = []; outbox = [] }

-- `INSERT … ON CONFLICT (op_id) DO NOTHING`: `none` where the id is there already.
abbrev pub claim_operation : String → Db → Option Db
claim_operation op_id db =
    if includes db.operations op_id
    then none
    else some (record db { operations = db.operations ++ op_id ∷ [] })

abbrev pub enqueue : Exchange → Envelope → Db → Db
enqueue exchange envelope db = record db {
  outbox = db.outbox ++ record { exchange = exchange; envelope = envelope; published = false } ∷ [];
}

-- What a transaction that moves an order comes to: the new tables, no claim, or the exception.
pub data Commit : Type 0 where
  applied : Db → Commit
  duplicate : Commit
  raced : Commit

abbrev pub advance_command : String → State → Envelope
advance_command order_id state = make_event order_id (advance_from (value state))

-- `UPDATE orders SET state = … WHERE order_id = … AND state = …`: `none` where it meets no row.
unfoldable pub update_state : String → State → State → Db → Option Db
update_state order_id current target db = elim (lookup order_id db.orders) [
  | none ↦ none
  | some row ↦
      if same row.state current
      then some (record db { orders = insert order_id (record row { state = target }) db.orders })
      else none
]

abbrev pub record_transition : String → State → State → String → ℕ → Db → Db
record_transition order_id current target cause attempt db = record db {
  transitions =
      db.transitions
      ++ record {
        order_id = order_id;
        from_state = current;
        to_state = target;
        cause = cause;
        attempt = attempt;
      }
        ∷ [];
}

-- What the three transactions share: the claim, the guarded update, the row and the event.
unfoldable pub move : String → State → State → String → ℕ → Db → Commit
unfolding update_state op_id_for
move order_id current target cause attempt db =
    elim (claim_operation (op_id_for order_id current target) db) [
      | none ↦ duplicate
      | some claimed ↦ elim (update_state order_id current target claimed) [
        | none ↦ raced
        | some updated ↦ applied (
            enqueue events (make_event order_id (moved current target cause attempt))
              (record_transition order_id current target cause attempt updated))
      ]
    ]

-- The next command, where the order goes on.
abbrev pub enqueue_next : String → State → Commit → Commit
enqueue_next order_id target (applied db) =
    applied (if is_terminal target then db else enqueue work (advance_command order_id target) db)
enqueue_next order_id target duplicate = duplicate
enqueue_next order_id target raced = raced

unfoldable pub commit_transition : String → State → State → ℕ → Db → Commit
unfolding move
commit_transition order_id current target attempt db =
    enqueue_next order_id target (move order_id current target "advance" attempt db)

unfoldable pub cancel : String → State → ℕ → Db → Commit
unfolding move
cancel order_id current attempt db = move order_id current cancelled "customer_cancelled" attempt db

unfoldable pub fail_order : String → State → String → ℕ → Db → Commit
unfolding move
fail_order order_id current reason attempt db = move order_id current failed reason attempt db

abbrev pub placed_row : PlacedData → OrderRow
placed_row d = record {
  state = placed;
  idempotency_key = d.idempotency_key;
  customer_id = d.customer_id;
  restaurant_id = d.restaurant_id;
  items = d.items;
  total_cents = d.total_cents;
}

-- The transaction of `on_placed`.
unfoldable pub insert_placed : String → PlacedData → Db → Db
insert_placed order_id d db = elim (lookup order_id db.orders) [
  | some row ↦ db
  | none ↦
      enqueue work (advance_command order_id placed)
        (record db { orders = insert order_id (placed_row d) db.orders })
]
