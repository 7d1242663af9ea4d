-- ===== src/Orders/Tests.antt =====
-- The adapter on a cart from two restaurants.
use mathlib.Core.List.{Permᴰ}
use dinner_rush.Prelude.{
  ℕ, String, Bool, false, none, some, List, [], ◌∷◌, map, ◌≡◌, refl, sym, ◌∙◌, leb, arith, All,
  Occurs, inl, inr, str_eq, Bool-cases, ap, if◌then◌else◌,
}
use dinner_rush.Prelude.Text.{text_length}
use dinner_rush.Prelude.Sort.{IsOrder}
use dinner_rush.OrderApi.{
  PlaceOrderItem, PlaceOrderInput, PlaceOrderResult, Reply, answered, thrown, ok, CartView,
  OrderRow, OrderStatus,
}
use dinner_rush.Orders.Token.{
  CartToken, TokenOrder, Json, encode_cart, decode_cart, as_token, decode-encode_cart,
}
use dinner_rush.Orders.Token.Postfix.{postfix}
use dinner_rush.Orders.Ingestion.{IngestItem, OrderRequest, Table}
use dinner_rush.Orders.Ingestion.Laws.{Keeps-refl}
use dinner_rush.Orders.Status.{aggregate_status}
use dinner_rush.Orders.Status.Laws.{IsAggregate, aggregate_status-IsAggregate}
use dinner_rush.Orders.Place.{Group, Post, served, dropped, group_items, place_cart}
use dinner_rush.Orders.Place.Retry.{TellsApart, place_cart_again}
use dinner_rush.Orders.Place.Grouping.{IsGrouping, group_items-IsGrouping}
use dinner_rush.Orders.Views.{OrchView, compose_views, compose_cart_view, fetch_orders}
use dinner_rush.Orders.Views.Laws.{IsView, compose_views-IsView}
use dinner_rush.Orders.Views.Unread.{unread_order_holds_back}

abbrev pasta : PlaceOrderItem
pasta = record {
  dish_id = "nonna-1";
  restaurant_id = "nonna";
  restaurant_name = some "Nonna's";
  name = some "Rigatoni";
  qty = 2;
  unit_price_cents = 7800;
  serves_min = some 8;
  serves_max = some 10;
  cuisine = some "italian";
}

abbrev ramen : PlaceOrderItem
ramen = record pasta {
  dish_id = "sakura-1";
  restaurant_id = "sakura";
  qty = 1;
  unit_price_cents = 9900;
}

abbrev input : PlaceOrderInput
input = record {
  idempotency_key = some "k1";
  items = pasta ∷ ramen ∷ pasta ∷ [];
  headcount = 20;
  tip_cents = none;
  pay_method = none;
  customer_name = some "Ada";
  customer_email = none;
  customer_phone = none;
  company_name = none;
  occasion = none;
  delivery_date = none;
  delivery_time = none;
  dietary_notes = none;
  address1 = none;
  address2 = none;
  city = none;
  state = none;
  zip = none;
  dropoff_instructions = none;
  contactless = none;
}

abbrev line : ℕ → ℕ → String → IngestItem
line qty price name = record { name = name; qty = qty; price_cents = price }

abbrev nonna : Group
nonna = ("nonna", line 2 7800 "Rigatoni" ∷ line 2 7800 "Rigatoni" ∷ [])

abbrev sakura : Group
sakura = ("sakura", line 1 9900 "Rigatoni" ∷ [])

abbrev first : List Post
first =
    record { group = nonna; fate = served; new_id = "o1" }
    ∷ record { group = sakura; fate = served; new_id = "o2" }
    ∷ []

abbrev second : List Post
second =
    record { group = sakura; fate = served; new_id = "o3" }
    ∷ record { group = nonna; fate = dropped; new_id = "o4" }
    ∷ []

-- Shorter names first.
abbrev by_length : String → String → Bool
by_length a b = leb (text_length a) (text_length b)

by_length-IsOrder : IsOrder by_length
by_length-IsOrder = record {
  total = λ x y. elim (Bool-cases (by_length x y)) [ inl h ↦ inl h | inr h ↦ inr (ground arith) ];
  transitive = λ x y z h k. ground (arith, h, k);
}

tells_apart : TellsApart postfix by_length by_length-IsOrder ("nonna" ∷ "sakura" ∷ [])
tells_apart a b (inl e) (inl f) h k = e ∙ sym f
tells_apart a b (inl e) (inr (inl f)) h k = absurd (cc (rw e at (rw f at k)))
tells_apart a b (inr (inl e)) (inl f) h k = absurd (cc (rw e at (rw f at h)))
tells_apart a b (inr (inl e)) (inr (inl f)) h k = e ∙ sym f
tells_apart a b (inl e) (inr (inr o)) h k = elim o [ ]
tells_apart a b (inr (inl e)) (inr (inr o)) h k = elim o [ ]
tells_apart a b (inr (inr o)) p h k = elim o [ ]

abbrev token : CartToken
token = record {
  hc = 20;
  o = record { id = "o1"; r = "nonna" } ∷ record { id = "o2"; r = "sakura" } ∷ [];
}

abbrev result : PlaceOrderResult
result = record {
  order_id = encode_cart postfix token;
  status = "accepted";
  idempotency_key = "k1";
  duplicate = false;
  total_cents = 41100;
}

grouped : group_items input.items [] ≡ nonna ∷ sakura ∷ []
unfolding group_items
grouped = refl

first_placed : (place_cart postfix by_length [] "k0" input first).1 ≡ ok result
unfolding place_cart encode_cart
first_placed = refl

abbrev table : Table
table = (place_cart postfix by_length [] "k0" input first).0

place_cart_again_example :
    ((place_cart postfix by_length table "k9" input second).0 ≡ table)
    × ((r2 : PlaceOrderResult)
        → (place_cart postfix by_length table "k9" input second).1 ≡ ok r2
        → r2 ≡ result)
    × (All (λ p. p.fate ≡ served) second
        → (place_cart postfix by_length table "k9" input second).1 ≡ ok result)
place_cart_again_example =
    place_cart_again postfix by_length by_length-IsOrder input "k1" "k0" "k9" [] table first second
      result refl (Permᴰ.swap refl refl) tells_apart first_placed (Keeps-refl table)

group_items-IsGrouping_example :
    IsGrouping (pasta ∷ ramen ∷ pasta ∷ []) (group_items (pasta ∷ ramen ∷ pasta ∷ []) [])
group_items-IsGrouping_example = group_items-IsGrouping (pasta ∷ ramen ∷ pasta ∷ [])

decode-encode_cart_example :
    (j : Json) × (decode_cart postfix (encode_cart postfix token) ≡ some j)
    × (as_token j ≡ some token)
decode-encode_cart_example = decode-encode_cart postfix token

aggregate_status-IsAggregate_example :
    IsAggregate ("ready" ∷ "placed" ∷ []) (aggregate_status ("ready" ∷ "placed" ∷ []))
aggregate_status-IsAggregate_example = aggregate_status-IsAggregate ("ready" ∷ "placed" ∷ [])

abbrev request : OrderRequest
request = record {
  customer_id = "Ada";
  restaurant_id = "nonna";
  items = [];
  idempotency_key = "k1:nonna";
}

abbrev seen : String → String → OrchView
seen id state = record {
  order = record {
    order_id = id;
    state = state;
    customer_id = some "Ada";
    restaurant_id = some "nonna";
    items = line 2 7800 "Rigatoni" ∷ [];
    total_cents = 15600;
    created_at = "2026-01-01";
  };
  transitions = [];
}

compose_views-IsView_example :
    IsView by_length
      (seen "o1" "ready" ∷ [])
      (compose_views by_length "2026-01-02" "t" 20 (seen "o1" "ready" ∷ []))
compose_views-IsView_example =
    compose_views-IsView by_length "2026-01-02" "t" 20 (seen "o1" "ready" ∷ []) by_length-IsOrder

abbrev replies : TokenOrder → Reply OrchView
replies o = if str_eq o.id "o1" then answered 200 (seen "o1" "delivered") else thrown "down"

abbrev shown : CartView
shown =
    compose_views by_length "2026-01-02" (encode_cart postfix token) 20
      (fetch_orders by_length "2026-01-02" replies token.o)

none_failed :
    ¬ Occurs "failed"
      (map (λ v. v.order.state) (fetch_orders by_length "2026-01-02" replies token.o))
unfolding fetch_orders
none_failed (inl e) = absurd (cc (ap (λ s. str_eq s "failed") e))
none_failed (inr (inl e)) = absurd (cc (ap (λ s. str_eq s "failed") e))
none_failed (inr (inr o)) = elim o [ ]

unread_order_holds_back_example :
    (view : CartView) × (row : OrderRow) × (compose_cart_view by_length "2026-01-02" postfix replies
        (encode_cart postfix token)
      ≡ some view)
    × (view.order ≡ some row)
    × (row.status ≡ OrderStatus.placed)
unread_order_holds_back_example =
    unread_order_holds_back by_length "2026-01-02" postfix replies token
      (record { id = "o2"; r = "sakura" }) (inr (inl refl)) tt none_failed
