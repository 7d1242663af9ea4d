-- ===== src/Api.antt =====
-- The HTTP routes of customer-web/src/app/api/orders: placing an order (route.ts), reading one
-- ([id]/route.ts) and its live feed ([id]/stream/route.ts, in Api/Stream).
pub mod Stream
pub mod Laws
use mathlib.Core.Option
use dinner_rush.Prelude.{
  ℕ, String, Bool, true, false, not, Option, none, some, get_or, List, [], ◌∷◌, str_eq,
  if◌then◌else◌, length, all, ◌==◌, ◌&&◌, ◌||◌, leb,
}
use dinner_rush.OrderApi.{
  PlaceOrderItem, PlaceOrderInput, PlaceOrderResult, CartView, OrderRow, Outcome, ok, error, Answer,
  accepted, refused,
}
use dinner_rush.Orders.Token.{Codec}
use dinner_rush.Orders.Ingestion.{Table}
use dinner_rush.Orders.Place.{Post, place_cart}

-- The conditions of `ItemSchema` beyond the types of its fields. A quantity and a price are whole.
unfoldable pub is_item : PlaceOrderItem → Bool
is_item it = not (str_eq it.dish_id "") && not (str_eq it.restaurant_id "") && leb 1 it.qty

abbrev pub is_optional : (String → Bool) → Option String → Bool
is_optional p none = true
is_optional p (some s) = p s

abbrev pub not_empty : String → Bool
not_empty s = not (str_eq s "")

-- The conditions of `OrderSchema`. What text is an email address is the library's.
unfoldable pub is_order : (String → Bool) → PlaceOrderInput → Bool
unfolding is_item
is_order is_email input =
    is_optional not_empty input.idempotency_key
    && (leb 1 (length input.items) && all is_item input.items)
    && (leb 1 input.headcount && leb input.headcount 2000)
    && is_optional (λ s. is_email s || str_eq s "") input.customer_email

-- The body of the request: not JSON; JSON with a field of another type; or the fields, the headcount
-- being 1 where it is left out, as the schema has it.
pub data Body : Type 0 where
  not_json : Body
  mistyped : Body
  fields : PlaceOrderInput → Body

pub record Response : Type 0 where
  pub status : ℕ
  pub answer : Answer

pub respond : Outcome PlaceOrderResult → Response
respond (ok result) = record { status = 202; answer = accepted result }
respond (error message) = record { status = 502; answer = refused (some "could not place order") }

module _ (codec : Codec) (collate : String → String → Bool) (is_email : String → Bool) where
  -- `POST /api/orders`. `new_key` is what `randomUUID` gives, should the body have no key.
  pub post_order : Table → String → Body → List Post → Table × Response
  unfolding is_order respond place_cart
  post_order table new_key not_json schedule =
      (table, record { status = 400; answer = refused (some "invalid JSON") })
  post_order table new_key mistyped schedule =
      (table, record { status = 422; answer = refused (some "invalid order") })
  post_order table new_key (fields input) schedule =
      let (table', result) = place_cart codec collate table new_key input schedule in
      if is_order is_email input
      then (table', respond result)
      else (table, record { status = 422; answer = refused (some "invalid order") })

-- The page's side, `placeOrder` of customer-web/src/lib/order-api.ts, on the answer of the route.
pub read_response : Response → Outcome PlaceOrderResult
read_response response =
    if response.status == 200 || response.status == 202
    then elim response.answer [
      | accepted result ↦ ok result
      | refused message ↦ error "unexpected body"
    ]
    else elim response.answer [
      | accepted result ↦ error "Could not place order"
      | refused message ↦ error (get_or message "Could not place order")
    ]

-- `GET /api/orders/{id}`
pub get_order : CartView → ℕ × Option CartView
get_order view = elim view.order [ none ↦ (404, none) | some row ↦ (200, some view) ]
