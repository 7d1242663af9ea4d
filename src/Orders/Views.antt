-- ===== src/Orders/Views.antt =====
-- `composeCartView` of customer-web/src/lib/dr.ts: the orders of a token, fetched from the orchestrator,
-- as one view. The orchestrator's replies, the clock and `localeCompare` are parameters.
pub mod Laws
pub mod Unread
use dinner_rush.Prelude.{
  ℕ, zero, suc, ◌+◌, String, Bool, true, false, not, Option, none, some, get_or, List, [], ◌∷◌,
  ◌++◌, map, str_eq, if◌then◌else◌, find?, flat_map, ◌==◌, ◌&&◌, ◌||◌, leb,
}
use mathlib.Core.Option
use dinner_rush.Prelude.Text.{◌+s◌, prefix, decimal, str_lt}
use dinner_rush.Prelude.Maps.{lookup}
use dinner_rush.Prelude.Sort.{sort}
use dinner_rush.Types.{Restaurant, cuisine_name}
use dinner_rush.Catalog.{restaurant_map}
use dinner_rush.OrderApi.{
  OrderRow, ItemRow, FulfillmentRow, DeliveryRow, TransitionRow, CartView, OrderStatus,
  DeliveryStatus, Reply, thrown, answered, unreadable,
}
use dinner_rush.Orders.Ingestion.{IngestItem}
use dinner_rush.Orders.Token.{Codec, TokenOrder, CartToken, decode_cart, as_token}
use dinner_rush.Orders.Status.{aggregate_status, kitchen_from_state, delivery_from_state}

pub record OrchOrder : Type 0 where
  pub order_id : String
  pub state : String
  pub customer_id : Option String
  pub restaurant_id : Option String
  pub items : List IngestItem
  pub total_cents : ℕ
  pub created_at : String

pub record OrchTransition : Type 0 where
  pub from_state : Option String
  pub to_state : String
  pub cause : Option String
  pub attempt : ℕ
  pub created_at : String

pub record OrchView : Type 0 where
  pub order : OrchOrder
  pub transitions : List OrchTransition

-- `now` is the text of the clock, `new Date().toISOString()`.
pub pending : String → String → String → OrchView
pending now id restaurant_id = record {
  order = record {
    order_id = id;
    state = "placed";
    customer_id = none;
    restaurant_id = some restaurant_id;
    items = [];
    total_cents = 0;
    created_at = now;
  };
  transitions = [];
}

-- `res.ok`
abbrev pub is_ok : ℕ → Bool
is_ok status = leb 200 status && leb status 299

-- `fetchOrder`. The body of a good answer is an `OrchView` or cannot be read: one of another JSON shape,
-- which the cast would let through, is outside the model.
unfoldable pub read_order : String → String → String → Reply OrchView → OrchView
unfolding pending
read_order now id restaurant_id (thrown message) = pending now id restaurant_id
read_order now id restaurant_id (unreadable status) = pending now id restaurant_id
read_order now id restaurant_id (answered status view) =
    if status == 404
    then pending now id restaurant_id
    else if not (is_ok status)
    then pending now id restaurant_id
    else view

-- A text that is there and not empty.
abbrev pub is_truthy : Option String → Bool
is_truthy none = false
is_truthy (some s) = not (str_eq s "")

pub restaurant_name : Option String → Option String
restaurant_name none = none
restaurant_name (some id) =
    if str_eq id ""
    then none
    else some (get_or (Option.map (λ (r : Restaurant). r.name) (lookup id restaurant_map)) id)

pub restaurant_cuisine : Option String → Option String
restaurant_cuisine none = none
restaurant_cuisine (some id) =
    if str_eq id ""
    then none
    else Option.map (λ (r : Restaurant). cuisine_name r.cuisine) (lookup id restaurant_map)

-- The variables that the loop over the views fills.
pub record Composing : Type 0 where
  pub items : List ItemRow
  pub fulfillments : List FulfillmentRow
  pub deliveries : List DeliveryRow
  pub total_cents : ℕ
  pub created_at : String
  pub failure_reason : Option String

abbrev pub composing : Composing
composing = record {
  items = [];
  fulfillments = [];
  deliveries = [];
  total_cents = 0;
  created_at = "";
  failure_reason = none;
}

pub item_row : OrchOrder → ℕ → IngestItem → ItemRow
unfolding restaurant_name restaurant_cuisine
item_row order idx it = record {
  id = order.order_id +s "-" +s decimal idx;
  restaurant_id = get_or order.restaurant_id "";
  restaurant_name = restaurant_name order.restaurant_id;
  dish_id = "";
  name = some it.name;
  qty = it.qty;
  unit_price_cents = it.price_cents;
  cuisine = restaurant_cuisine order.restaurant_id;
}

pub item_rows : OrchOrder → ℕ → List IngestItem → List ItemRow
unfolding item_row
item_rows order idx [] = []
item_rows order idx (it ∷ its) = item_row order idx it ∷ item_rows order (suc idx) its

pub fulfillment_row : OrchOrder → FulfillmentRow
unfolding restaurant_name kitchen_from_state
fulfillment_row order = record {
  id = order.order_id;
  restaurant_id = get_or order.restaurant_id "";
  restaurant_name = restaurant_name order.restaurant_id;
  provider = "kitchen";
  provider_order_id = some (prefix 8 order.order_id);
  status = kitchen_from_state order.state;
  subtotal_cents = order.total_cents;
}

pub delivery_row : OrchOrder → DeliveryRow
unfolding delivery_from_state
delivery_row order = record {
  id = order.order_id +s "-d";
  restaurant_id = order.restaurant_id;
  provider = "courier";
  provider_delivery_id =
      if str_eq order.state "placed" then none else some (prefix 8 order.order_id);
  status = delivery_from_state order.state;
  tracking_url = none;
  fee_cents = some 0;
}

abbrev is_failure : OrchTransition → Bool
is_failure t = str_eq t.to_state "failed"

abbrev cause_of : OrchTransition → Option String
cause_of t = t.cause

-- `transitions.find((t) => t.to_state === "failed")?.cause`
pub failure_cause : List OrchTransition → Option String
failure_cause transitions = elim (find? is_failure transitions) [ none ↦ none | some t ↦ t.cause ]

pub earlier : String → String → String
earlier created_at next =
    if str_eq created_at "" || str_lt next created_at then next else created_at

pub reason_after : OrchView → Option String → Option String
unfolding failure_cause
reason_after view reason =
    let cause = failure_cause view.transitions in
    if str_eq view.order.state "failed" && is_truthy cause then cause else reason

-- The body of the loop.
pub add_view : Composing → OrchView → Composing
unfolding earlier item_rows fulfillment_row delivery_row reason_after
add_view c view = record {
  items = c.items ++ item_rows view.order 0 view.order.items;
  fulfillments = c.fulfillments ++ fulfillment_row view.order ∷ [];
  deliveries = c.deliveries ++ delivery_row view.order ∷ [];
  total_cents = c.total_cents + view.order.total_cents;
  created_at = earlier c.created_at view.order.created_at;
  failure_reason = reason_after view c.failure_reason;
}

pub add_views : Composing → List OrchView → Composing
unfolding add_view
add_views c [] = c
add_views c (view ∷ views) = add_views (add_view c view) views

pub number_rows : ℕ → List OrchTransition → List TransitionRow
number_rows i [] = []
number_rows i (t ∷ ts) =
    record {
      id = i + 1;
      from_state = t.from_state;
      to_state = t.to_state;
      cause = t.cause;
      attempt = t.attempt;
      created_at = t.created_at;
    }
    ∷ number_rows (suc i) ts

-- `views.find((v) => v.order.customer_id)?.order.customer_id ?? null`
pub first_customer : List OrchView → Option String
first_customer views = elim (find? (λ v. is_truthy v.order.customer_id) views) [
  | none ↦ none
  | some v ↦ v.order.customer_id
]

pub customer_name : Option String → Option String
customer_name none = none
customer_name (some s) = if str_eq s "guest" then none else some s

module _ (collate : String → String → Bool) (now : String) where
  unfoldable pub timeline : List OrchView → List TransitionRow
  unfolding number_rows
  timeline views =
      number_rows 0
        (sort (λ a b. collate a.created_at b.created_at) (flat_map (λ v. v.transitions) views))

  unfoldable pub order_row : String → ℕ → List OrchView → Composing → OrderRow
  unfolding aggregate_status first_customer customer_name
  order_row token hc views c = record {
    id = token;
    status = aggregate_status (map (λ v. v.order.state) views);
    headcount = hc;
    customer_name = customer_name (first_customer views);
    customer_email = none;
    company_name = none;
    occasion = none;
    delivery_date = none;
    delivery_time = none;
    address1 = none;
    city = none;
    zip = none;
    currency = "usd";
    subtotal_cents = c.total_cents;
    delivery_fee_cents = 0;
    service_fee_cents = 0;
    tax_cents = 0;
    tip_cents = 0;
    total_cents = c.total_cents;
    failure_reason = c.failure_reason;
    created_at = if str_eq c.created_at "" then now else c.created_at;
  }

  unfoldable pub compose_views : String → ℕ → List OrchView → CartView
  unfolding add_views timeline order_row
  compose_views token hc views =
      let c = add_views composing views in
      record {
        order = some (order_row token hc views c);
        items = c.items;
        fulfillments = c.fulfillments;
        deliveries = c.deliveries;
        transitions = timeline views;
      }

  -- The orders of the token, each with what its fetch came back with.
  unfoldable pub fetch_orders : (TokenOrder → Reply OrchView) → List TokenOrder → List OrchView
  unfolding read_order
  fetch_orders replies orders = map (λ o. read_order now o.id o.r (replies o)) orders

  abbrev pub no_view : CartView
  no_view = record {
    order = none;
    items = [];
    fulfillments = [];
    deliveries = [];
    transitions = [];
  }

  -- `none` for a value that passes `decodeCart` and was not written by `encodeCart`: the rest of the
  -- function then meets `undefined`, and is not modelled there.
  pub compose_cart_view : Codec → (TokenOrder → Reply OrchView) → String → Option CartView
  unfolding compose_views fetch_orders
  compose_cart_view codec replies token = elim (decode_cart codec token) [
    | none ↦ some no_view
    | some j ↦
        Option.map (λ (t : CartToken). compose_views token t.hc (fetch_orders replies t.o))
          (as_token j)
  ]
