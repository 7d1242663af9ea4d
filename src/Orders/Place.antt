-- ===== src/Orders/Place.antt =====
-- `placeCart` of customer-web/src/lib/dr.ts: a cart becomes one order for each restaurant, posted at
-- once. The order in which the posts are served and answered is a schedule, and each has a fate.
pub mod Grouping
pub mod Posts
pub mod Retry
use dinner_rush.Prelude.{
  ℕ, zero, suc, ◌+◌, ◌*◌, String, Bool, true, false, Option, none, some, get_or, List, [], ◌∷◌,
  ◌++◌, map, str_eq, if◌then◌else◌, length, sum_of, ◌==◌, ◌||◌, leb, ltb, ◌&&◌,
}
use mathlib.Core.Option
use dinner_rush.Prelude.Text.{◌+s◌, trim}
use dinner_rush.Prelude.Maps.{lookup, insert}
use dinner_rush.Prelude.Sort.{sort}
use dinner_rush.OrderApi.{
  PlaceOrderItem, PlaceOrderInput, PlaceOrderResult, Reply, thrown, answered, unreadable, Outcome,
  ok, error,
}
use dinner_rush.Orders.Token.{Codec, TokenOrder, CartToken, encode_cart}
use dinner_rush.Orders.Ingestion.{IngestItem, OrderRequest, Table, post}

abbrev pub Group : Type 0
Group = String × List IngestItem

abbrev pub ingest_item : PlaceOrderItem → IngestItem
ingest_item it = record {
  name = get_or it.name it.dish_id;
  qty = it.qty;
  price_cents = it.unit_price_cents;
}

-- The loop that groups the cart lines by restaurant.
unfoldable pub group_items : List PlaceOrderItem → List Group → List Group
group_items [] groups = groups
group_items (it ∷ items) groups =
    let list = get_or (lookup it.restaurant_id groups) [] in
    group_items items (insert it.restaurant_id (list ++ ingest_item it ∷ []) groups)

-- `a || b`, for texts.
abbrev or_else : Option String → String → String
or_else none b = b
or_else (some a) b = if str_eq a "" then b else a

pub customer_of : PlaceOrderInput → String
unfolding trim
customer_of input =
    or_else (Option.map trim input.customer_name)
      (or_else (Option.map trim input.customer_email) "guest")

-- A key for each restaurant of the cart.
pub order_key : String → String → String
order_key cart_key restaurant_id = cart_key +s ":" +s restaurant_id

pub order_request : String → String → Group → OrderRequest
unfolding order_key
order_request cart_key customer g = record {
  customer_id = customer;
  restaurant_id = g.0;
  items = g.1;
  idempotency_key = order_key cart_key g.0;
}

-- What becomes of a post: it is served and answered; it is served, and the answer is lost; it never
-- arrives; or something answers with a status and a body that is not the service's.
pub data Fate : Type 0 where
  served : Fate
  cut : Fate
  dropped : Fate
  refused : ℕ → Fate

pub record Post : Type 0 where
  pub group : Group
  pub fate : Fate
  pub new_id : String

-- The table after the post, and what its `fetch` comes back with.
pub serve : Fate → Table → String → OrderRequest → Table × Reply String
unfolding post
serve served table new_id req =
    let (table', status, id) = post table new_id req in (table', answered status id)
serve cut table new_id req = ((post table new_id req).0, thrown "fetch failed")
serve dropped table new_id req = (table, thrown "fetch failed")
serve (refused status) table new_id req = (table, unreadable status)

-- The rest of the handler of one restaurant. The message leaves the number of the status out. The body
-- of a 200 or 202 is an ingestion answer or cannot be read: one of another JSON shape, which the cast
-- would let through, is outside the model.
pub read_reply : String → Reply String → Outcome TokenOrder
read_reply restaurant_id (thrown message) = error message
read_reply restaurant_id (answered status id) =
    if status == 200 || status == 202
    then ok (record { id = id; r = restaurant_id })
    else error ("ingestion rejected " +s restaurant_id)
read_reply restaurant_id (unreadable status) =
    if status == 200 || status == 202
    then error "unexpected body"
    else error ("ingestion rejected " +s restaurant_id)

unfoldable pub items_total : List IngestItem → ℕ
items_total items = sum_of (λ i. i.qty * i.price_cents) items

module _ (cart_key customer : String) where
  pub place_one : Table → Post → Table × Outcome TokenOrder
  unfolding serve read_reply order_request
  place_one table p =
      let (table', reply) = serve p.fate table p.new_id (order_request cart_key customer p.group) in
      (table', read_reply p.group.0 reply)

  -- After a failure `Promise.all` has rejected, and the other posts still run.
  pub run_rest : Table → List Post → Table
  unfolding place_one
  run_rest table [] = table
  run_rest table (p ∷ posts) = run_rest (place_one table p).0 posts

  -- `Promise.all` over the posts, in the order of the schedule.
  pub place_all : Table → List Post → List TokenOrder → ℕ → Table × Outcome (List TokenOrder × ℕ)
  unfolding place_one run_rest items_total
  place_all table [] placed total = (table, ok (placed, total))
  place_all table (p ∷ posts) placed total =
      let (table', outcome) = place_one table p in
      let failed = run_rest table' posts in
      elim outcome [
        | ok o ↦ place_all table' posts (placed ++ o ∷ []) (total + items_total p.group.1)
        | error message ↦ (failed, error message)
      ]

-- The comparison of `localeCompare`, "not after", is the runtime's.
module _ (codec : Codec) (collate : String → String → Bool) where
  abbrev pub not_after : TokenOrder → TokenOrder → Bool
  not_after a b = collate a.r b.r

  unfoldable pub finish :
      PlaceOrderInput → String → Outcome (List TokenOrder × ℕ) → Outcome PlaceOrderResult
  unfolding encode_cart
  finish input cart_key (error message) = error message
  finish input cart_key (ok (placed, total)) = ok (record {
    order_id = encode_cart codec (record { hc = input.headcount; o = sort not_after placed });
    status = "accepted";
    idempotency_key = cart_key;
    duplicate = false;
    total_cents = total;
  })

  -- `new_key` is the key that is made up where the input has none. The schedule holds the groups of
  -- the cart, in some order.
  unfoldable pub place_cart :
      Table → String → PlaceOrderInput → List Post → Table × Outcome PlaceOrderResult
  unfolding group_items customer_of place_all finish
  place_cart table new_key input schedule =
      let cart_key = get_or input.idempotency_key new_key in
      let (table', outcome) = place_all cart_key (customer_of input) table schedule [] 0 in
      if length (group_items input.items []) == 0
      then (table, error "cart is empty")
      else (table', finish input cart_key outcome)
