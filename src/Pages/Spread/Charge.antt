-- ===== src/Pages/Spread/Charge.antt =====
-- What the cart charges for a bundle, beside what the page of the bundle asks for it: `addBundle` of
-- customer-web/src/lib/cart-context.tsx puts the dishes in at their own prices.
use mathlib.Core.Option.{some-injective}
use dinner_rush.Prelude.{
  subst, ap, Bool, ◌&&◌, ℕ, ◌+◌, ◌*◌, ◌≤◌, String, true, none, some, List, [], ◌∷◌, sum_of,
  filter_map, leb, all, ◌≡◌, refl, sym, ◌∙◌, arith, Option-cases, Bool-cases, inl, inr, str_eq,
  eq_iff, all_sound, All-Occurs, Occurs, find?, map,
}
use dinner_rush.Prelude.Maps.{lookup, no_repeats, lookup-index_by}
use dinner_rush.Types.{Dish, CuratedBundle, CartItem}
use dinner_rush.Catalog.{dish_map, bundle_map}
use dinner_rush.Catalog.Bundles.{bundles}
use dinner_rush.Cart.{Cart, add_bundle}
use dinner_rush.Cart.Items.{item, is_dish, add_one, add_all}
use dinner_rush.Cart.Totals.{Derived, derive, serves_twice}
use dinner_rush.Cart.Totals.Laws.{line_price, line_servings, derive_total}
use dinner_rush.Pages.Spread.{
  find_bundle, included_dishes, bundle_servings, bundle_total, a_la_carte, savings, Spread,
  spread_of, spread,
}

module _ (w : Dish → ℕ) where
  abbrev line_weight : CartItem → ℕ
  line_weight i = elim (lookup i.dish_id dish_map) [ none ↦ 0 | some d ↦ w d * i.qty ]

  abbrev id_weight : String → ℕ
  id_weight id = elim (lookup id dish_map) [ none ↦ 0 | some d ↦ w d ]

  line_weight-item :
      (id : String) (n : ℕ) → line_weight (item id (n + 1)) ≡ line_weight (item id n) + id_weight id
  line_weight-item id n = elim (Option-cases (lookup id dish_map)) [
    | inl off ↦ ground (arith, off)
    | inr (d, on) ↦ ground (arith, on)
  ]

  line_weight-add_one :
      (id : String) (items : List CartItem)
      → sum_of line_weight (add_one id items) ≡ sum_of line_weight items + id_weight id
  unfolding add_one
  line_weight-add_one id [] = ground (arith, line_weight-item id 0)
  line_weight-add_one id (i ∷ rest) = elim (Bool-cases (is_dish id i)) [
    | inl same ↦
        rw same (ground (arith, same, line_weight-item i.dish_id i.qty, eq_iff i.dish_id id))
    | inr other ↦ rw other (ground (arith, line_weight-add_one id rest))
  ]

  line_weight-add_all :
      (ids : List String) (items : List CartItem)
      → sum_of line_weight (add_all ids items) ≡ sum_of line_weight items + sum_of id_weight ids
  unfolding add_all
  line_weight-add_all [] items = omega arith
  line_weight-add_all (id ∷ ids) items =
      omega (arith, line_weight-add_all ids (add_one id items), line_weight-add_one id items)

  id_weight-dishes :
      (ids : List String)
      → sum_of id_weight ids ≡ sum_of w (filter_map (λ id. lookup id dish_map) ids)
  id_weight-dishes [] = refl
  id_weight-dishes (id ∷ ids) = ground (arith, id_weight-dishes ids)

find?-Occurs : {A : Type 0} (p : A → Bool) (xs : List A) (x : A) → find? p xs ≡ some x → Occurs x xs
find?-Occurs p [] x e = absurd (cc)
find?-Occurs p (y ∷ xs) x e = elim (Bool-cases (p y)) [
  | inl yes_it_is ↦ inl (sym (some-injective _ _ (rw yes_it_is at e)))
  | inr other ↦ inr (find?-Occurs p xs x (rw other at e))
]

-- What the page's text says of each bundle of the catalog: it asks for no more than the dishes cost
-- on their own, and its dishes serve everybody that it is sized for.
abbrev is_fair : CuratedBundle → Bool
is_fair b = leb (bundle_total b) (a_la_carte b) && leb (2 * b.serves) (bundle_servings b)

bundles_fair : all is_fair bundles ≡ true
unfolding bundle_total a_la_carte bundle_servings included_dishes dish_map
bundles_fair = refl

bundle_ids_differ : no_repeats (map (λ b. b.id) bundles) ≡ true
bundle_ids_differ = refl

record IsOnSale (b : CuratedBundle) : Type 0 where
  found : lookup b.id bundle_map ≡ some b
  adds_up : a_la_carte b ≡ bundle_total b + savings b
  covers : 2 * b.serves ≤ bundle_servings b

find_bundle-IsOnSale : (slug : String) (b : CuratedBundle) → find_bundle slug ≡ some b → IsOnSale b
unfolding find_bundle bundle_map savings
find_bundle-IsOnSale slug b e =
    let o : Occurs b bundles = find?-Occurs (λ b. str_eq b.slug slug) bundles b e in
    let fair =
      All-Occurs (λ b. is_fair b ≡ true) bundles (all_sound is_fair bundles bundles_fair) o in
    record {
      found = lookup-index_by (λ b. b.id) b bundles bundle_ids_differ o;
      adds_up = ground arith;
      covers = ground arith;
    }

spread-found :
    (slug : String) (s : Spread)
    → spread slug ≡ some s
    → (b : CuratedBundle) × (find_bundle slug ≡ some b) × (spread_of b ≡ s)
unfolding spread
spread-found slug s e = elim (Option-cases (find_bundle slug)) [
  | inl gone ↦ absurd (ground (arith, gone, e))
  | inr (b, at) ↦ (b, at, some-injective _ _ (rw (at, spread) at e))
]

add_bundle-items :
    (b : CuratedBundle) (c : Cart)
    → lookup b.id bundle_map ≡ some b
    → (add_bundle b.id c).items ≡ add_all b.dish_ids c.items
unfolding add_bundle add_all
add_bundle-items b c e = rw (e, add_bundle) refl

abbrev pub IsCharge : Spread → Cart → Derived → Derived → Type 0
IsCharge s c v v' =
    (derive c.items c.headcount ≡ some v)
    × (derive (add_bundle s.bundle.id c).items (add_bundle s.bundle.id c).headcount ≡ some v')
    × (v'.subtotal ≡ v.subtotal + s.total + s.saved)
    × (v'.total_servings ≡ v.total_servings + s.servings)
    × (2 * s.bundle.serves ≤ s.servings)

spread_of-IsCharge :
    (b : CuratedBundle) (c : Cart)
    → IsOnSale b
    → (v : Derived) × (v' : Derived) × IsCharge (spread_of b) c v v'
unfolding spread_of bundle_servings a_la_carte included_dishes
spread_of-IsCharge b c h =
    let (v, run, price, servings, _, _) = derive_total c.items c.headcount in
    let next = add_bundle b.id c in
    let (v', run', price', servings', _, _) = derive_total next.items next.headcount in
    let same = add_bundle-items b c h.found in
    let priced = line_weight-add_all (λ d. d.price) b.dish_ids c.items in
    let served = line_weight-add_all serves_twice b.dish_ids c.items in
    let at_prices = id_weight-dishes (λ d. d.price) b.dish_ids in
    let at_servings = id_weight-dishes serves_twice b.dish_ids in
    (
      v,
      v',
      (
        run,
        run',
        omega (arith, price, price' ∙ ap (sum_of line_price) same, priced, at_prices, h.adds_up),
        omega (arith, servings, servings' ∙ ap (sum_of line_servings) same, served, at_servings),
        h.covers,
      ),
    )

-- To add the bundle of a page to a cart, whatever is in it, raises the subtotal by the total that the
-- page asks and the amount that it says is saved, so the saving is not given. The servings go up by
-- those of the page, which cover the guests it is sized for.
pub add_bundle-IsCharge :
    (slug : String) (s : Spread) (c : Cart)
    → spread slug ≡ some s
    → (v : Derived) × (v' : Derived) × IsCharge s c v v'
add_bundle-IsCharge slug s c e =
    let (b, at, same) = spread-found slug s e in
    subst (λ s. (v : Derived) × (v' : Derived) × IsCharge s c v v') same
      (spread_of-IsCharge b c (find_bundle-IsOnSale slug b at))
