-- ===== src/Orders/Views/Unread.antt =====
-- Tokens that cannot be read, and orders whose fetch fails, in the view of a cart.
use dinner_rush.Prelude.{
  ◌≤◌, String, Bool, true, not, none, some, List, map, ◌≡◌, ◌≢◌, ◌↔◌, refl, ap, subst, str_eq, ◌==◌,
  ◌||◌, arith, All-Occurs, Occurs, Occurs-map, Option-cases, inl, inr,
}
use mathlib.Core.Option.{some-injective}
use dinner_rush.OrderApi.{OrderStatus, CartView, OrderRow, Reply, thrown, answered, unreadable}
use dinner_rush.Orders.Token.{
  Codec, TokenOrder, CartToken, encode_cart, decode_cart, as_token, decode-encode_cart,
}
use dinner_rush.Orders.Status.{aggregate_status, flow_idx}
use dinner_rush.Orders.Status.Laws.{IsCancelled, aggregate_status-IsAggregate, rank}
use dinner_rush.Orders.Views.{
  OrchView, pending, read_order, is_ok, compose_views, order_row, fetch_orders, no_view,
  compose_cart_view,
}

module _ (collate : String → String → Bool) (now : String) (codec : Codec)
    (replies : TokenOrder → Reply OrchView) where
  -- The token of a cart is read back: its view is that of its orders, for its headcount.
  pub compose_cart_view-encode_cart :
      (t : CartToken)
      → compose_cart_view collate now codec replies (encode_cart codec t)
        ≡ some (
            compose_views collate now
              (encode_cart codec t)
              t.hc
              (fetch_orders collate now replies t.o))
  unfolding compose_cart_view
  compose_cart_view-encode_cart t =
      let (j, read, cast) = decode-encode_cart codec t in
      rw (read, compose_cart_view) (rw cast refl)

  -- A view has no order exactly when the token cannot be read; so the route of one order answers 404,
  -- and the stream ends, for no other reason.
  pub order_is_none :
      (token : String) (view : CartView)
      → compose_cart_view collate now codec replies token ≡ some view
      → (view.order ≡ none) ↔ (decode_cart codec token ≡ none)
  unfolding compose_cart_view compose_views
  order_is_none token view e = elim (Option-cases (decode_cart codec token)) [
    | inl d ↦
        let same : view ≡ no_view collate now = cc (rw (d, compose_cart_view) at e) in
        (λ n. d, λ n. ap (λ (v : CartView). v.order) same)
    | inr (j, d) ↦ elim (Option-cases (as_token j)) [
      | inl c ↦ absurd (cc (rw c at (rw (d, compose_cart_view) at e)))
      | inr (t, c) ↦
          let shown = rw c at (rw (d, compose_cart_view) at e) in
          let same : compose_views collate now token t.hc (fetch_orders collate now replies t.o)
              ≡ view =
            some-injective _ _ shown in
          (λ n. absurd (cc (ap (λ (v : CartView). v.order) same, n)), λ n. absurd (cc (d, n)))
    ]
  ]

-- A fetch that the adapter shows as an order that is pending.
abbrev pub IsUnread : Reply OrchView → Type 0
IsUnread (thrown message) = Unit
IsUnread (unreadable status) = Unit
IsUnread (answered status view) = (status == 404 || not (is_ok status)) ≡ true

read_order_unread :
    (now id r : String) (reply : Reply OrchView)
    → IsUnread reply
    → read_order now id r reply ≡ pending now id r
unfolding read_order
read_order_unread now id r (thrown message) h = refl
read_order_unread now id r (unreadable status) h = refl
read_order_unread now id r (answered status view) h = ground arith

placed_lem :
    (status : OrderStatus)
    → rank status ≤ 0
    → status ≢ OrderStatus.failed
    → status ≢ OrderStatus.cancelled
    → status ≡ OrderStatus.placed
unfolding flow_idx
placed_lem OrderStatus.placed h f c = refl
placed_lem OrderStatus.confirmed h f c = absurd (omega arith)
placed_lem OrderStatus.preparing h f c = absurd (omega arith)
placed_lem OrderStatus.ready h f c = absurd (omega arith)
placed_lem OrderStatus.out_for_delivery h f c = absurd (omega arith)
placed_lem OrderStatus.delivered h f c = absurd (omega arith)
placed_lem OrderStatus.cancelled h f c = absurd (c refl)
placed_lem OrderStatus.failed h f c = absurd (f refl)

aggregate_placed :
    (states : List String)
    → Occurs "placed" states
    → ¬ Occurs "failed" states
    → aggregate_status states ≡ OrderStatus.placed
unfolding flow_idx
aggregate_placed states o n =
    let a = aggregate_status-IsAggregate states in
    let live : ¬ (◌≡◌ {A = String} "placed" "cancelled") =
      λ e. cc (ap (λ s. str_eq s "placed") e) in
    let not_failed : aggregate_status states ≢ OrderStatus.failed = λ e. n (a.failed_iff.0 e) in
    placed_lem (aggregate_status states) (a.least not_failed "placed" o live) not_failed
      (λ e. live (All-Occurs IsCancelled states (a.cancelled_iff.0 e).1 o))

-- While the fetch of one order of a cart fails and no order has failed, the cart is shown as just
-- placed, however far its orders are.
pub unread_order_holds_back :
    (collate : String → String → Bool) (now : String) (codec : Codec)
    (replies : TokenOrder → Reply OrchView) (t : CartToken) (o : TokenOrder)
    → Occurs o t.o
    → IsUnread (replies o)
    → ¬ Occurs "failed" (map (λ v. v.order.state) (fetch_orders collate now replies t.o))
    → (view : CartView) × (row : OrderRow) × (compose_cart_view collate now codec replies
          (encode_cart codec t)
        ≡ some view)
      × (view.order ≡ some row)
      × (row.status ≡ OrderStatus.placed)
unfolding compose_views order_row fetch_orders pending
unread_order_holds_back collate now codec replies t o occurs unread n =
    let vs = fetch_orders collate now replies t.o in
    let state : OrchView → String = λ v. v.order.state in
    let read : TokenOrder → OrchView = λ (p : TokenOrder). read_order now p.id p.r (replies p) in
    let here : Occurs (state (read o)) (map state vs) =
      Occurs-map state (read o) vs (Occurs-map read o t.o occurs) in
    let waits : state (read o) ≡ "placed" =
      ap state (read_order_unread now o.id o.r (replies o) unread) in
    (
      compose_views collate now (encode_cart codec t) t.hc vs,
      _,
      compose_cart_view-encode_cart collate now codec replies t,
      refl,
      aggregate_placed (map state vs) (subst (λ s. Occurs s (map state vs)) waits here) n,
    )
