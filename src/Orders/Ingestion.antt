-- ===== src/Orders/Ingestion.antt =====
-- The order intake that the adapter posts to, services/ingestion/app/main.py: one table of orders, where
-- the idempotency key is unique, and the answer of `POST /orders`. The outbox that follows an insert
-- and the generated ids are not modelled further: an id is new for each call, and is a parameter.
pub mod Laws
use mathlib.Core.Option
use dinner_rush.Prelude.{
  ℕ, String, Bool, Option, none, some, List, [], ◌∷◌, ◌++◌, str_eq, if◌then◌else◌, find?,
}

pub record IngestItem : Type 0 where
  pub name : String
  pub qty : ℕ
  pub price_cents : ℕ

-- The body of the request.
pub record OrderRequest : Type 0 where
  pub customer_id : String
  pub restaurant_id : String
  pub items : List IngestItem
  pub idempotency_key : String

pub record StoredOrder : Type 0 where
  pub order_id : String
  pub request : OrderRequest

abbrev pub Table : Type 0
Table = List StoredOrder

abbrev pub has_key : String → StoredOrder → Bool
has_key k o = str_eq o.request.idempotency_key k

abbrev pub accepted_status : ℕ
accepted_status = 202

abbrev pub duplicate_status : ℕ
duplicate_status = 200

-- `INSERT … ON CONFLICT (idempotency_key) DO NOTHING`, and the answer's status and order id.
unfoldable pub post : Table → String → OrderRequest → Table × ℕ × String
post table new_id req = elim (find? (has_key req.idempotency_key) table) [
  | none ↦ (table ++ record { order_id = new_id; request = req } ∷ [], accepted_status, new_id)
  | some existing ↦ (table, duplicate_status, existing.order_id)
]

-- The order id that a key stands for.
unfoldable pub id_of : String → Table → Option String
id_of k table = Option.map (λ o. o.order_id) (find? (has_key k) table)
