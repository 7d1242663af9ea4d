-- ===== src/Pages/Estimate.antt =====
-- The estimate that the configurator shows, and what its dishes then cost in the cart.
mod Tests
use mathlib.Core.Option.{some-injective}
use dinner_rush.Prelude.{
  ℕ, ◌+◌, ◌*◌, ◌≤◌, String, true, false, some, List, [], ◌∷◌, map, ◌≡◌, refl, ◌∙◌, ap, subst, ◌-◌,
  str_eq, eq_iff, sum_of, sum_of-append, arith, Option-cases, Bool-cases, inl, inr, find?, is_some,
}
use dinner_rush.Prelude.Maps.{lookup, includes}
use dinner_rush.Types.{Dish, CartItem}
use dinner_rush.Catalog.{dish_map}
use dinner_rush.Cart
use dinner_rush.Cart.{Cart}
use dinner_rush.Cart.Calls.{IsCart, add-IsCart}
use dinner_rush.Cart.Items.{is_dish, item, add_item, raise_qty}
use dinner_rush.Cart.Items.Invariant.{AreItems, dish_ids}
use dinner_rush.Cart.Totals.Laws.{line_price}
use dinner_rush.Pages.Configurator.{qty_for, est_total, add_chosen}

module _ (id : String) (n : ℕ) (d : Dish) (found : lookup id dish_map ≡ some d) where
  map_raise_absent :
      (xs : List CartItem)
      → includes (dish_ids xs) id ≡ false
      → sum_of line_price (map (raise_qty id n) xs) ≡ sum_of line_price xs
  map_raise_absent [] h = refl
  map_raise_absent (x ∷ xs) h = ground (arith, map_raise_absent xs)

  item_price : (k : ℕ) → line_price (item id k) ≡ d.price * k
  item_price k = rw (found, line_price) refl

  raised_price :
      (x : CartItem)
      → str_eq x.dish_id id ≡ true
      → line_price (raise_qty id n x) ≡ line_price x + d.price * n
  raised_price x e =
      let at : lookup x.dish_id dish_map ≡ some d =
        ap (λ k. lookup k dish_map) ((eq_iff x.dish_id id).0 e) ∙ found in
      rw e (rw (at, line_price) (grind arith))

  map_raise_price :
      (xs : List CartItem)
      → is_some (find? (is_dish id) xs) ≡ true
      → AreItems xs
      → sum_of line_price (map (raise_qty id n) xs) ≡ sum_of line_price xs + d.price * n
  map_raise_price [] e h = absurd (cc)
  map_raise_price (x ∷ xs) e (new, some_, on, h) = elim (Bool-cases (str_eq x.dish_id id)) [
    | inl same ↦ omega (
      arith,
      raised_price x same,
      map_raise_absent xs (ground (arith, new, same, eq_iff x.dish_id id)),
    )
    | inr other ↦ ground (arith, other, map_raise_price xs)
  ]

  add_item-price :
      (xs : List CartItem)
      → AreItems xs
      → sum_of line_price (add_item id n xs) ≡ sum_of line_price xs + d.price * n
  unfolding add_item
  add_item-price xs h = elim (Bool-cases (is_some (find? (is_dish id) xs))) [
    | inl there ↦ rw there (map_raise_price xs there h)
    | inr new ↦ rw new (omega (arith, sum_of-append line_price xs (item id n ∷ []), item_price n))
  ]

qty_for-pos : (guests : ℕ) (d : Dish) → 1 ≤ qty_for guests d
unfolding qty_for
qty_for-pos guests d = omega arith

add_lem :
    (id : String) (q : ℕ) (d : Dish) (c : Cart)
    → lookup id dish_map ≡ some d
    → 1 ≤ q
    → IsCart c
    → IsCart (Cart.add id q c)
      × (sum_of line_price (Cart.add id q c).items ≡ sum_of line_price c.items + d.price * q)
unfolding Cart.add
add_lem id q d c on p h =
    let q' : q - 1 + 1 ≡ q = omega (arith, p) in
    (
      subst (λ n. IsCart (Cart.add id n c)) q' (add-IsCart id (q - 1) c h),
      rw (on, Cart.add) (add_item-price id q d on c.items h.items),
    )

-- What the estimate counts, for the dishes that are added in turn, is what the cart's items are worth
-- more afterwards; and the cart stays well formed.
add_chosen-price :
    (guests : ℕ) (ids : List String) (c : Cart) (total : ℕ)
    → IsCart c
    → est_total guests ids ≡ some total
    → IsCart (add_chosen guests ids c)
      × (sum_of line_price (add_chosen guests ids c).items ≡ sum_of line_price c.items + total)
unfolding add_chosen est_total
add_chosen-price guests [] c total h e = (h, omega (arith, some-injective _ _ e))
add_chosen-price guests (id ∷ ids) c total h e = elim (Option-cases (lookup id dish_map)) [
  | inl off ↦ absurd (cc (rw (off, est_total) at e))
  | inr (d, on) ↦ elim (Option-cases (est_total guests ids)) [
    | inl bad ↦ absurd (cc (rw bad at (rw (on, est_total) at e)))
    | inr (rest, good) ↦
        let q = qty_for guests d in
        let c' = Cart.add id q c in
        let sum : d.price * q + rest ≡ total =
          some-injective _ _ (rw good at (rw (on, est_total) at e)) in
        let (well, added) = add_lem id q d c on (qty_for-pos guests d) h in
        let (fine, more) = add_chosen-price guests ids c' rest well good in
        rw (on, add_chosen) (fine, omega (arith, more, sum, added))
  ]
]
