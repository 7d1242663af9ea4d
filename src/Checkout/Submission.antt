-- ===== src/Checkout/Submission.antt =====
-- What the checkout submits of a cart.
use mathlib.Core.List.{Permᴰ}
use dinner_rush.Prelude.{
  suc, ◌*◌, ◌≤◌, String, Bool, true, false, some, get_or, List, [], ◌∷◌, map, ◌≡◌, refl, ap, str_eq,
  eq_iff, length, ◌&&◌, ◌||◌, all, not, all_sound, All-mono, sum_of, arith, Option-cases, inl, inr,
  ◌⊎◌,
}
use dinner_rush.Prelude.Maps.{lookup, index_by-All}
use dinner_rush.Prelude.Sort.{IsOrder, sum_of-Permᴰ}
use dinner_rush.Types.{CartItem, Dish}
use dinner_rush.Catalog.Dishes.{dishes}
use dinner_rush.Catalog.{dish_map}
use dinner_rush.Cart.{Cart}
use dinner_rush.Cart.Calls.{IsCart}
use dinner_rush.Cart.Items.Invariant.{AreItems}
use dinner_rush.Cart.Totals.Laws.{line_price}
use dinner_rush.OrderApi.{PlaceOrderItem, PlaceOrderResult, ok}
use dinner_rush.Orders.Token.{Codec}
use dinner_rush.Orders.Ingestion.{Table}
use dinner_rush.Orders.Place.{
  Group, Post, items_total, group_items, place_cart, finish, customer_of,
}
use dinner_rush.Orders.Place.Posts.{group_of, place_all-IsPlacedAll}
use dinner_rush.Orders.Place.Retry.{place_cart_ok, ok_injective}
use dinner_rush.Orders.Place.Grouping.{line_cents, group_items-IsGrouping}
use dinner_rush.Api.{is_item, is_order, is_optional, not_empty}
use dinner_rush.Checkout.{FormState, or_undefined, order_items, place_input}

abbrev IsNamed : String → Type 0
IsNamed s = str_eq s "" ≡ false

-- Every line of a well-formed cart becomes a line that the route accepts.
record AreLines (items : List CartItem) (lines : List PlaceOrderItem) : Type 0 where
  as_many : length lines ≡ length items
  accepted : all is_item lines ≡ true
  amount : sum_of line_cents lines ≡ 100 * sum_of line_price items

abbrev is_named : Dish → Bool
is_named d = not (str_eq d.id "") && not (str_eq d.restaurant_id "")

dishes_named : all is_named dishes ≡ true
dishes_named = refl

names_of : (d : Dish) → is_named d ≡ true → IsNamed d.id × IsNamed d.restaurant_id
names_of d h = ground arith

dish_names :
    (k : String) (d : Dish) → lookup k dish_map ≡ some d → IsNamed d.id × IsNamed d.restaurant_id
unfolding dish_map
dish_names =
    index_by-All (λ d. d.id) (λ k d. IsNamed d.id × IsNamed d.restaurant_id) dishes
      (All-mono _ _ names_of dishes (all_sound is_named dishes dishes_named))

order_items-AreLines : (items : List CartItem) → AreItems items → AreLines items (order_items items)
unfolding order_items is_item
order_items-AreLines [] h = record { as_many = refl; accepted = refl; amount = refl }
order_items-AreLines (i ∷ items) (new, some_, on, h) =
    let rest = order_items-AreLines items h in
    elim (Option-cases (lookup i.dish_id dish_map)) [
      | inl off ↦ absurd (cc (rw off at on))
      | inr (d, found) ↦
          let (id, kitchen) = dish_names i.dish_id d found in
          rw (found, order_items)
            (record {
              as_many = ap suc rest.as_many;
              accepted = ground (arith, rest.accepted, id, kitchen);
              amount = rw (found, line_price) (grind (arith, rest.amount));
            })
    ]

or_undefined-named : (s : String) → is_optional not_empty (or_undefined s) ≡ true
or_undefined-named s = ground arith

or_undefined-email :
    (is_email : String → Bool) (s : String)
    → (is_email s ≡ true) ⊎ (s ≡ "")
    → is_optional (λ t. is_email t || str_eq t "") (or_undefined s) ≡ true
or_undefined-email is_email s (inl h) = ground (arith, h)
or_undefined-email is_email s (inr e) = ground (arith, eq_iff s "", e)

-- The order of a well-formed cart that has items is one that the route accepts, where the email field
-- is empty or holds an address: it is never answered 422.
pub place_input-is_order :
    (is_email : String → Bool) (idem_key : String) (form : FormState) (c : Cart)
    → IsCart c
    → 1 ≤ length c.items
    → (is_email form.email ≡ true) ⊎ (form.email ≡ "")
    → is_order is_email (place_input idem_key form c) ≡ true
unfolding is_order place_input
place_input-is_order is_email idem_key form c h n e =
    let lines = order_items-AreLines c.items h.items in
    ground (
      arith,
      or_undefined-named idem_key,
      or_undefined-email is_email form.email e,
      lines.as_many,
      lines.accepted,
      h.some_guests,
      h.few_guests,
    )

-- The amount of a placed cart is its subtotal by the catalog, in cents, whatever the order in which the
-- restaurants' posts are served: the fees and the tax that the page adds to the subtotal are no part
-- of the order.
pub place_cart-amount :
    (codec : Codec) (collate : String → String → Bool) (t : Table) (new_key idem_key : String)
    (form : FormState) (c : Cart) (posts : List Post) (r : PlaceOrderResult)
    → IsOrder collate
    → IsCart c
    → Permᴰ (group_items (place_input idem_key form c).items []) (map group_of posts)
    → (place_cart codec collate t new_key (place_input idem_key form c) posts).1 ≡ ok r
    → r.total_cents ≡ 100 * sum_of line_price c.items
unfolding finish place_input
place_cart-amount codec collate t new_key idem_key form c posts r o h perm e =
    let input = place_input idem_key form c in
    let key = get_or input.idempotency_key new_key in
    let (ps, n, run, done, z) = place_cart_ok codec collate o t new_key input posts r e in
    let (list, sum, known) =
      (place_all-IsPlacedAll key (customer_of input) t posts [] 0).result ps n
        (ap (λ x. x.1) run) in
    let grouped = group_items-IsGrouping input.items in
    let lines = order_items-AreLines c.items h.items in
    let cents : n ≡ r.total_cents =
      ap (λ (x : PlaceOrderResult). x.total_cents) (ok_injective _ r done) in
    omega (
      arith,
      cents,
      sum,
      grouped.total,
      lines.amount,
      sum_of-Permᴰ (λ (g : Group). items_total g.1) perm,
    )
