-- ===== src/Cart/Totals/Laws.antt =====
-- The derived values of the cart are total and add up.
use dinner_rush.Prelude.{
  ℕ, ◌+◌, ◌*◌, ◌≤◌, ◌<◌, ◌^◌, String, true, none, some, List, [], ◌∷◌, ◌≡◌, refl, ◌∙◌, arith,
  sum_of, Option-cases, inl, inr, ◌⊎◌, ◌↔◌,
}
use dinner_rush.Prelude.Doubles.{times_round_7_percent, times_round_875}
use dinner_rush.Prelude.Maps.{lookup}
use dinner_rush.Types.{Dish, Restaurant, CartItem}
use dinner_rush.Catalog.{dish_map, restaurant_map}
use dinner_rush.Catalog.Integrity.{dish_map-IsServable}
use dinner_rush.Cart.Totals.{
  Tally, no_tally, tally_line, valid_items, tally, Derived, delivery_fee_of, service_fee_of, tax_of,
  total_of, summarise, derive, serves_twice,
}

-- What an item is worth, and whom it serves (doubled), by the catalog; nothing off the menu.
abbrev pub line_price : CartItem → ℕ
line_price i = elim (lookup i.dish_id dish_map) [ none ↦ 0 | some d ↦ d.price * i.qty ]

abbrev pub line_servings : CartItem → ℕ
line_servings i = elim (lookup i.dish_id dish_map) [ none ↦ 0 | some d ↦ serves_twice d * i.qty ]

abbrev pub line_count : CartItem → ℕ
line_count i = elim (lookup i.dish_id dish_map) [ none ↦ 0 | some d ↦ i.qty ]

pub kitchen_found :
    (k : String) (d : Dish)
    → lookup k dish_map ≡ some d
    → (r : Restaurant) × (lookup d.restaurant_id restaurant_map ≡ some r)
kitchen_found k d e =
    let known = (dish_map-IsServable k d e).kitchen in
    elim (Option-cases (lookup d.restaurant_id restaurant_map)) [
      | inl gone ↦ absurd (ground arith)
      | inr found ↦ found
    ]

pub tally_off_menu :
    (i : CartItem) (rest : List CartItem) (t : Tally)
    → lookup i.dish_id dish_map ≡ none
    → tally (i ∷ rest) t ≡ tally rest t
unfolding tally
tally_off_menu i rest t e = rw (e, tally)

pub tally_on_menu :
    (i : CartItem) (rest : List CartItem) (t : Tally) (d : Dish) (r : Restaurant)
    → lookup i.dish_id dish_map ≡ some d
    → lookup d.restaurant_id restaurant_map ≡ some r
    → tally (i ∷ rest) t ≡ tally rest (tally_line d r i.qty t)
unfolding tally
tally_on_menu i rest t d r e f = rw (e, tally) (rw f)

IsTallied : List CartItem → Tally → Tally → Type 0
IsTallied items t t' =
    (t'.subtotal ≡ t.subtotal + sum_of line_price items)
    × (t'.servings ≡ t.servings + sum_of line_servings items)
    × (t'.count ≡ t.count + sum_of line_count items)

tally_lem :
    (items : List CartItem) (t : Tally)
    → (t' : Tally) × (tally items t ≡ some t') × IsTallied items t t'
unfolding IsTallied tally tally_line
tally_lem [] t = (t, refl, omega arith)
tally_lem (i ∷ rest) t = elim (Option-cases (lookup i.dish_id dish_map)) [
  | inl off ↦
      let (t', run, sums) = tally_lem rest t in
      (t', tally_off_menu i rest t off ∙ run, ground arith)
  | inr (d, on) ↦
      let (r, at) = kitchen_found i.dish_id d on in
      let (t', run, sums) = tally_lem rest (tally_line d r i.qty t) in
      (t', tally_on_menu i rest t d r on at ∙ run, ground arith)
]

valid_items-sums :
    (items : List CartItem)
    → (sum_of line_price (valid_items items) ≡ sum_of line_price items)
      × (sum_of line_servings (valid_items items) ≡ sum_of line_servings items)
      × (sum_of line_count (valid_items items) ≡ sum_of line_count items)
unfolding valid_items
valid_items-sums [] = (refl, refl, refl)
valid_items-sums (i ∷ rest) = ground (arith, valid_items-sums rest)

pub derive_total :
    (items : List CartItem) (headcount : ℕ)
    → (v : Derived) × (derive items headcount ≡ some v)
      × (v.subtotal ≡ sum_of line_price items)
      × (v.total_servings ≡ sum_of line_servings items)
      × (v.item_count ≡ sum_of line_count items)
      × (v.total ≡ v.subtotal + v.delivery_fee + v.service_fee + v.tax)
unfolding derive summarise total_of IsTallied
derive_total items headcount =
    let (t, run, sums) = tally_lem (valid_items items) no_tally in
    let same = valid_items-sums items in
    (summarise items headcount t, rw (run, derive), ground arith, ground arith, ground arith, refl)

-- The fees, for a subtotal below 2 ^ 36: delivery costs 35 exactly from 1 to 249 and is free otherwise,
-- the service fee is a whole number nearest to 7 percent, and the tax one nearest to 8.75 percent.
pub fees_lem :
    (s : ℕ)
    → s < 2 ^ 36
    → ((1 ≤ s) × (s < 250) → delivery_fee_of s ≡ 35)
      × ((s ≡ 0) ⊎ (250 ≤ s) → delivery_fee_of s ≡ 0)
      × (100 * service_fee_of s ≤ 7 * s + 50)
      × (7 * s ≤ 100 * service_fee_of s + 50)
      × (10000 * tax_of s ≤ 875 * s + 5000)
      × (875 * s ≤ 10000 * tax_of s + 5000)
unfolding delivery_fee_of service_fee_of tax_of
fees_lem s h =
    let service = times_round_7_percent s (omega arith) in
    let tax = times_round_875 s h in
    (ground arith, ground arith, service.0, service.1, tax.0, tax.1)

-- The bundle is covered exactly when there are guests and the servings reach the headcount.
pub covered_iff :
    (items : List CartItem) (headcount : ℕ) {v : Derived}
    → derive items headcount ≡ some v
    → (v.covered ≡ true) ↔ ((1 ≤ headcount) × (2 * headcount ≤ sum_of line_servings items))
unfolding derive summarise IsTallied
covered_iff items headcount e =
    let (t, run, sums) = tally_lem (valid_items items) no_tally in
    let same = valid_items-sums items in let found = rw (run, derive) at e in ground arith
