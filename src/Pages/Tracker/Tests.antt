-- ===== src/Pages/Tracker/Tests.antt =====
-- The first visit's cart, placed at three kitchens and tracked.
use dinner_rush.Prelude.{
  String, Bool, false, none, some, get_or, List, [], ◌∷◌, map, length, sum_of, ◌≡◌, refl, leb,
  arith, inl, inr, Bool-cases,
}
use dinner_rush.Prelude.Text.{text_length}
use dinner_rush.Prelude.Maps.{lookup}
use dinner_rush.Prelude.Sort.{IsOrder}
use dinner_rush.Catalog.{dish_map}
use dinner_rush.Cart.Storage.{seed}
use dinner_rush.OrderApi.{
  OrderRow, CartView, PlaceOrderInput, PlaceOrderResult, Reply, answered, ok,
}
use dinner_rush.Orders.Token.{TokenOrder, encode_cart}
use dinner_rush.Orders.Token.Postfix.{postfix}
use dinner_rush.Orders.Place.{Group, Post, served, items_total, group_items, place_cart}
use dinner_rush.Orders.Place.Posts.{group_of, entry_in}
use dinner_rush.Orders.Views.{OrchView, read_order, compose_cart_view}
use dinner_rush.Checkout.{initial, place_input}
use dinner_rush.Pages.Tracker.Page.{PriceRow, tracker_page}
use dinner_rush.Pages.Tracker.Invoice.{worth, bare_rows}
use dinner_rush.Pages.Tracker.Placed.{AreCharged, place_cart-tracked}

abbrev by_length : String → String → Bool
by_length a b = leb (text_length a) (text_length b)

by_length-IsOrder : IsOrder by_length
by_length-IsOrder = record {
  total = λ x y. elim (Bool-cases (by_length x y)) [ inl h ↦ inl h | inr h ↦ inr (ground arith) ];
  transitive = λ x y z h k. ground (arith, h, k);
}

abbrev input : PlaceOrderInput
input = place_input "k1" initial seed

abbrev posted : Group → Post
posted g = record { group = g; fate = served; new_id = g.0 }

abbrev schedule : List Post
schedule = map posted (group_items input.items [])

abbrev result : PlaceOrderResult
result = record {
  order_id = encode_cart postfix (record {
    hc = 40;
    o =
        record { id = "fuego"; r = "fuego" }
        ∷ record { id = "verde"; r = "verde" }
        ∷ record { id = "sakura"; r = "sakura" }
        ∷ [];
  });
  status = "accepted";
  idempotency_key = "k1";
  duplicate = false;
  total_cents = 31400;
}

all_placed : (place_cart postfix by_length [] "k0" input schedule).1 ≡ ok result
unfolding place_cart place_input encode_cart group_items dish_map
all_placed = refl

abbrev now : String
now = "2026-01-02"

-- The orchestrator's answers, with the amounts that were posted.
abbrev replies : TokenOrder → Reply OrchView
replies o = answered 200 (record {
  order = record {
    order_id = o.id;
    state = "confirmed";
    customer_id = none;
    restaurant_id = some o.r;
    items = [];
    total_cents = items_total (get_or (lookup o.r (group_items input.items [])) []);
    created_at = now;
  };
  transitions = [];
})

told :
    AreCharged now replies
      (get_or input.idempotency_key "k0")
      (place_cart postfix by_length [] "k0" input schedule).0
      (map group_of schedule)
unfolding place_cart place_input group_items dish_map read_order items_total entry_in
told = (refl, (refl, (refl, tt)))

place_cart-tracked_example :
    (v : CartView) × (o : OrderRow) × (compose_cart_view by_length now postfix replies
        result.order_id
      ≡ some v)
    × (v.order ≡ some o)
    × (length (tracker_page v o).kitchens ≡ length schedule)
    × ((tracker_page v o).total ≡ result.total_cents)
    × (sum_of (λ (x : PriceRow). worth x.price) (tracker_page v o).rows ≡ result.total_cents)
    × ((tracker_page v o).rows ≡ bare_rows result.total_cents)
place_cart-tracked_example =
    place_cart-tracked postfix by_length [] "k0" now input schedule result replies by_length-IsOrder
      all_placed told
