-- ===== src/Checkout/Tests.antt =====
-- The checkout of the cart that a first visit shows.
use mathlib.Core.List.{Permᴰ}
use mathlib.Core.List.Permᴰ
use dinner_rush.Prelude.{
  ◌+◌, ◌*◌, String, Bool, true, false, List, [], ◌∷◌, map, ◌≡◌, refl, leb, arith, inl, inr, none,
  length, is_some, ◌⊎◌, Bool-cases,
}
use dinner_rush.Prelude.Text.{text_length}
use dinner_rush.Prelude.Sort.{IsOrder}
use dinner_rush.Catalog.{dish_map, restaurant_map}
use dinner_rush.Cart.Storage.{seed}
use dinner_rush.Cart.Sessions.{seed-IsCart}
use dinner_rush.OrderApi.{PlaceOrderInput, PlaceOrderResult, ok, error}
use dinner_rush.Orders.Token.{encode_cart}
use dinner_rush.Orders.Token.Postfix.{postfix}
use dinner_rush.Orders.Place.{Group, Post, served, group_items, place_cart}
use dinner_rush.Api.{is_order, fields, post_order}
use dinner_rush.Api.Laws.{IsAnswered, post_order-IsAnswered}
use dinner_rush.Checkout.{initial, place_input, order_items, begin_order, settle_order}
use dinner_rush.Checkout.Presses.{
  Event, Page, opened, run_page, step, press, answer, is_disabled, IsCheckout,
}
use dinner_rush.Checkout.Presses.Laws.{IsOver, run_page-IsCheckout}
use dinner_rush.Cart.{clear}
use dinner_rush.Cart.Totals.{Derived, derive}
use dinner_rush.Cart.Totals.Laws.{derive_total}
use dinner_rush.Checkout.Charged.{place_cart-charged}
use dinner_rush.Checkout.Submission.{place_input-is_order}

abbrev by_length : String → String → Bool
by_length a b = leb (text_length a) (text_length b)

by_length-IsOrder : IsOrder by_length
by_length-IsOrder = record {
  total = λ x y. elim (Bool-cases (by_length x y)) [ inl h ↦ inl h | inr h ↦ inr (ground arith) ];
  transitive = λ x y z h k. ground (arith, h, k);
}

abbrev any_text : String → Bool
any_text s = leb 3 (text_length s)

abbrev input : PlaceOrderInput
input = place_input "k1" initial seed

abbrev posted : Group → Post
posted g = record { group = g; fate = served; new_id = g.0 }

abbrev schedule : List Post
schedule = map posted (group_items input.items [])

schedule_all : Permᴰ (group_items input.items []) (map (λ p. p.group) schedule)
unfolding place_input group_items dish_map
schedule_all = Permᴰ.refl _

abbrev result : PlaceOrderResult
result = record {
  order_id = encode_cart postfix (record {
    hc = 40;
    o =
        record { id = "fuego"; r = "fuego" }
        ∷ record { id = "verde"; r = "verde" }
        ∷ record { id = "sakura"; r = "sakura" }
        ∷ [];
  });
  status = "accepted";
  idempotency_key = "k1";
  duplicate = false;
  total_cents = 31400;
}

all_placed : (place_cart postfix by_length [] "k0" input schedule).1 ≡ ok result
unfolding place_cart place_input encode_cart group_items dish_map
all_placed = refl

place_input-is_order_example : is_order any_text input ≡ true
place_input-is_order_example =
    place_input-is_order any_text "k1" initial seed seed-IsCart (omega arith) (inr refl)

abbrev derived : Derived
derived = (derive_total seed.items seed.headcount).0

place_cart-charged_example :
    (result.total_cents ≡ 100 * derived.subtotal)
    × (result.total_cents + 100 * (derived.delivery_fee + derived.service_fee + derived.tax)
        ≡ 100 * derived.total)
place_cart-charged_example =
    place_cart-charged postfix by_length [] "k0" "k1" initial seed derived schedule result
      by_length-IsOrder seed-IsCart (derive_total seed.items seed.headcount).1 schedule_all
      all_placed

post_order-IsAnswered_example :
    let (u, r) = post_order postfix by_length any_text [] "k0" (fields input) schedule in
    IsAnswered postfix by_length any_text [] "k0" input schedule u r
post_order-IsAnswered_example =
    post_order-IsAnswered postfix by_length any_text [] "k0" input schedule

-- Pressed twice, refused, pressed again, placed, and pressed once more.
abbrev presses : List Event
presses =
    Event.pressed
    ∷ Event.pressed
    ∷ Event.answered (error "full")
    ∷ Event.pressed
    ∷ Event.answered (ok result)
    ∷ []

abbrev page : Page
page = run_page "k1" presses (opened initial true seed)

posted_twice :
    (length page.state.posted ≡ 2)
    × (is_some page.state.pushed ≡ true)
    × (page.state.cart.items ≡ [])
    × (page.refused ≡ 1)
unfolding derive restaurant_map run_page step press answer is_disabled begin_order settle_order
    place_input order_items dish_map clear
posted_twice = (refl, refl, refl, refl)

run_page-IsCheckout_example :
    IsCheckout "k1" page
    × ((page.state.pushed ≡ none) ⊎ IsOver page (run_page "k1" (Event.pressed ∷ []) page))
run_page-IsCheckout_example =
    run_page-IsCheckout "k1" initial true seed presses (Event.pressed ∷ []) seed-IsCart
