-- ===== src/Pages/Tracker/Placed.antt =====
-- A cart that has been placed, and then tracked: `placeCart`, the token of its result, `composeCartView`
-- and the page of the tracker together.
use dinner_rush.Prelude.{
  ℕ, String, Bool, some, get_or, List, [], ◌∷◌, map, length, length-map, sum_of, All, ◌≡◌, refl, ap,
  sym, subst, ◌∙◌, arith,
}
use dinner_rush.Prelude.Sort.{IsOrder, sort, sort-Permᴰ, sum_of-Permᴰ}
use dinner_rush.OrderApi.{OrderRow, CartView, PlaceOrderInput, PlaceOrderResult, Reply, ok}
use dinner_rush.Orders.Token.{Codec, CartToken, TokenOrder, encode_cart}
use dinner_rush.Orders.Ingestion.{Table}
use dinner_rush.Orders.Place.{
  Group, Post, items_total, not_after, place_all, place_cart, finish, customer_of,
}
use dinner_rush.Orders.Place.Posts.{group_of, entry_in, place_all-IsPlacedAll}
use dinner_rush.Orders.Place.Retry.{place_cart_ok, ok_injective}
use dinner_rush.Orders.Views.{
  OrchView, read_order, fetch_orders, compose_views, compose_cart_view, order_row, add_views,
  composing,
}
use dinner_rush.Orders.Views.Unread.{compose_cart_view-encode_cart}
use dinner_rush.Pages.Tracker.Page.{PriceRow, tracker_page}
use dinner_rush.Pages.Tracker.Invoice.{worth, bare_rows, compose_views-tracker_page}

module _ (now : String) (replies : TokenOrder → Reply OrchView) where
  abbrev pub charged : TokenOrder → ℕ
  charged o = (read_order now o.id o.r (replies o)).order.total_cents

  charged-fetch_orders :
      (collate : String → String → Bool) (os : List TokenOrder)
      → sum_of (λ (v : OrchView). v.order.total_cents) (fetch_orders collate now replies os)
        ≡ sum_of charged os
  unfolding fetch_orders
  charged-fetch_orders collate [] = refl
  charged-fetch_orders collate (o ∷ os) = omega (arith, charged-fetch_orders collate os)

  length-fetch_orders :
      (collate : String → String → Bool) (os : List TokenOrder)
      → length (fetch_orders collate now replies os) ≡ length os
  unfolding fetch_orders
  length-fetch_orders collate os = length-map (λ o. read_order now o.id o.r (replies o)) os

  -- The orchestrator says of the order of each group what the group was posted with.
  abbrev pub AreCharged : String → Table → List Group → Type 0
  AreCharged key u gs = All (λ g. charged (entry_in key u g) ≡ items_total g.1) gs

  charged-entries :
      (key : String) (u : Table) (gs : List Group)
      → AreCharged key u gs
      → sum_of charged (map (entry_in key u) gs) ≡ sum_of (λ (g : Group). items_total g.1) gs
  charged-entries key u [] h = refl
  charged-entries key u (g ∷ gs) (h, hs) = omega (arith, h, charged-entries key u gs hs)

length_as_sum : {A : Type 0} (xs : List A) → length xs ≡ sum_of (λ x. 1) xs
length_as_sum [] = refl
length_as_sum (x ∷ xs) = omega (arith, length_as_sum xs)

-- Once a cart is placed, and the orchestrator says of each of its orders what that order was posted
-- with, the token of the result leads to a page that has a row for each kitchen, whose invoice amounts
-- to the total that the result named, with no fee and no tax on it.
pub place_cart-tracked :
    (codec : Codec) (collate : String → String → Bool) (t : Table) (new_key now : String)
    (input : PlaceOrderInput) (posts : List Post) (r : PlaceOrderResult)
    (replies : TokenOrder → Reply OrchView)
    → IsOrder collate
    → (place_cart codec collate t new_key input posts).1 ≡ ok r
    → AreCharged now replies
        (get_or input.idempotency_key new_key)
        (place_cart codec collate t new_key input posts).0
        (map group_of posts)
    → (v : CartView) × (o : OrderRow) × (compose_cart_view collate now codec replies r.order_id
        ≡ some v)
      × (v.order ≡ some o)
      × (length (tracker_page v o).kitchens ≡ length posts)
      × ((tracker_page v o).total ≡ r.total_cents)
      × (sum_of (λ (x : PriceRow). worth x.price) (tracker_page v o).rows ≡ r.total_cents)
      × ((tracker_page v o).rows ≡ bare_rows r.total_cents)
unfolding finish tracker_page
place_cart-tracked codec collate t new_key now input posts r replies o placed told =
    let key = get_or input.idempotency_key new_key in
    let u = (place_cart codec collate t new_key input posts).0 in
    let groups : List Group = map group_of posts in
    let (ps, n, run, done, _) = place_cart_ok codec collate o t new_key input posts r placed in
    let ran : place_all key (customer_of input) t posts [] 0 ≡ (u, ok (ps, n)) = run in
    let same = ok_injective _ r done in
    let (list, sum, _) =
      (place_all-IsPlacedAll key (customer_of input) t posts [] 0).result ps n
        (ap (λ x. x.1) run) in
    let sorted : List TokenOrder = sort (not_after codec collate) ps in
    let token : CartToken = record { hc = input.headcount; o = sorted } in
    let vs = fetch_orders collate now replies sorted in
    let seen = compose_cart_view-encode_cart collate now codec replies token in
    let (shown, kitchens, rows, paid, words) =
      compose_views-tracker_page collate now (encode_cart codec token) input.headcount vs o in
    let perm = sort-Permᴰ (not_after codec collate) ps in
    let cents : n ≡ r.total_cents = ap (λ (x : PlaceOrderResult). x.total_cents) same in
    let id : encode_cart codec token ≡ r.order_id =
      ap (λ (x : PlaceOrderResult). x.order_id) same in
    let entries : ps ≡ map (entry_in key u) groups =
      list ∙ ap (λ (w : Table). map (entry_in key w) groups) (ap (λ x. x.0) ran) in
    let amount =
      sum_of-Permᴰ (charged now replies) perm
      ∙ ap (sum_of (charged now replies)) entries
      ∙ charged-entries now replies key u groups told in
    let many =
      length_as_sum sorted
      ∙ sum_of-Permᴰ (λ (p : TokenOrder). 1) perm
      ∙ sym (length_as_sum ps)
      ∙ ap length entries
      ∙ length-map (entry_in key u) groups
      ∙ length-map group_of posts in
    let total : (order_row collate now (encode_cart codec token) input.headcount vs
          (add_views composing vs)).total_cents
        ≡ r.total_cents =
      paid ∙ charged-fetch_orders now replies collate sorted ∙ omega (arith, amount, sum, cents) in
    (
      compose_views collate now (encode_cart codec token) input.headcount vs,
      order_row collate now (encode_cart codec token) input.headcount vs (add_views composing vs),
      subst
          (λ k.
            compose_cart_view collate now codec replies k
            ≡ some (compose_views collate now (encode_cart codec token) input.headcount vs))
          id seen,
      shown,
      kitchens ∙ length-fetch_orders now replies collate sorted ∙ many,
      total,
      rows ∙ total,
      words ∙ ap bare_rows total,
    )
