-- ===== src/Pages/Tracker/Invoice.antt =====
-- The invoice of the tracker of the orders of a placed cart.
use mathlib.Core.Option.{some-injective}
use dinner_rush.Prelude.{
  ℕ, String, Bool, some, List, [], ◌∷◌, length, length-map, sum_of, ◌≡◌, refl, ap, sym, ◌∙◌, arith,
}
use dinner_rush.Prelude.Sort.{IsOrder}
use dinner_rush.OrderApi.{OrderRow}
use dinner_rush.Orders.Views.{OrchView, compose_views, order_row, add_views, composing}
use dinner_rush.Orders.Views.Laws.{compose_views-IsView}
use dinner_rush.Pages.Tracker.Page.{
  Price, free, cents, PriceRow, invoice_rows, kitchen_row, tracker_page,
}

abbrev pub worth : Price → ℕ
worth free = 0
worth (cents n) = n

-- The rows of an invoice that charges its subtotal alone.
abbrev pub bare_rows : ℕ → List PriceRow
bare_rows n =
    record { label = "Subtotal"; price = cents n }
    ∷ record { label = "Delivery"; price = free }
    ∷ record { label = "Service"; price = cents 0 }
    ∷ record { label = "Tax"; price = cents 0 }
    ∷ []

-- The page of the orders of a token, as the adapter composes them, has a row for each kitchen; the rows
-- of its invoice amount to the total, which is what the orders were charged, and delivery is free on
-- it, whatever the orders are, with no service fee, no tax and no tip.
pub compose_views-tracker_page :
    (collate : String → String → Bool) (now token : String) (hc : ℕ) (vs : List OrchView)
    → IsOrder collate
    → let v = compose_views collate now token hc vs in
      let o = order_row collate now token hc vs (add_views composing vs) in
      let p = tracker_page v o in
      (v.order ≡ some o)
      × (length p.kitchens ≡ length vs)
      × (sum_of (λ (r : PriceRow). worth r.price) p.rows ≡ p.total)
      × (p.total ≡ sum_of (λ v. v.order.total_cents) vs)
      × (p.rows ≡ bare_rows p.total)
unfolding compose_views order_row tracker_page invoice_rows
compose_views-tracker_page collate now token hc vs o =
    let is = compose_views-IsView collate now token hc vs o in
    let v = compose_views collate now token hc vs in
    let kitchens =
      length-map kitchen_row v.fulfillments
      ∙ sym (length-map (λ f. f.id) v.fulfillments)
      ∙ ap length is.kitchens
      ∙ length-map (λ (v : OrchView). v.order.order_id) vs in
    let paid = ap (λ (o : OrderRow). o.total_cents) (some-injective _ _ is.shown) ∙ is.paid in
    (refl, kitchens, omega arith, paid, refl)
