-- ===== src/Checkout/Charged.antt =====
-- What a placed cart is charged, beside the total that the button of the checkout names,
-- customer-web/src/app/checkout/checkout-flow.tsx.
use mathlib.Core.List.{Permᴰ}
use mathlib.Core.Option.{some-injective}
use dinner_rush.Prelude.{
  ◌+◌, ◌*◌, String, Bool, some, List, [], map, subst, ◌≡◌, sym, ◌∙◌, arith, sum_of,
}
use dinner_rush.Prelude.Sort.{IsOrder}
use dinner_rush.Cart.{Cart}
use dinner_rush.Cart.Calls.{IsCart}
use dinner_rush.Cart.Totals.{Derived, derive}
use dinner_rush.Cart.Totals.Laws.{line_price, derive_total}
use dinner_rush.OrderApi.{PlaceOrderResult, ok}
use dinner_rush.Orders.Token.{Codec}
use dinner_rush.Orders.Ingestion.{Table}
use dinner_rush.Orders.Place.{Post, group_items, place_cart}
use dinner_rush.Orders.Place.Posts.{group_of}
use dinner_rush.Checkout.{FormState, place_input}
use dinner_rush.Checkout.Submission.{place_cart-amount}

abbrev AddsUp : Cart → Derived → Type 0
AddsUp c v =
    (v.subtotal ≡ sum_of line_price c.items)
    × (v.total ≡ v.subtotal + v.delivery_fee + v.service_fee + v.tax)

derive-AddsUp : (c : Cart) (v : Derived) → derive c.items c.headcount ≡ some v → AddsUp c v
derive-AddsUp c v e =
    let (u, run, subtotal, _, _, total) = derive_total c.items c.headcount in
    subst (AddsUp c) (some-injective _ _ (sym run ∙ e)) (subtotal, total)

-- When the orders of a well-formed cart are all placed, whatever the order in which the posts are
-- served, the amount of the result is that of the cart's subtotal in cents; the total that the button
-- names is more by the delivery, the service fee and the tax, which no order is charged.
pub place_cart-charged :
    (codec : Codec) (collate : String → String → Bool) (t : Table) (new_key idem_key : String)
    (form : FormState) (c : Cart) (v : Derived) (posts : List Post) (r : PlaceOrderResult)
    → IsOrder collate
    → IsCart c
    → derive c.items c.headcount ≡ some v
    → Permᴰ (group_items (place_input idem_key form c).items []) (map group_of posts)
    → (place_cart codec collate t new_key (place_input idem_key form c) posts).1 ≡ ok r
    → (r.total_cents ≡ 100 * v.subtotal)
      × (r.total_cents + 100 * (v.delivery_fee + v.service_fee + v.tax) ≡ 100 * v.total)
place_cart-charged codec collate t new_key idem_key form c v posts r o h e perm placed =
    let amount =
      place_cart-amount codec collate t new_key idem_key form c posts r o h perm placed in
    let (subtotal, total) = derive-AddsUp c v e in
    (omega (arith, amount, subtotal), omega (arith, amount, subtotal, total))
