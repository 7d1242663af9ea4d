-- ===== src/Cart/Totals.antt =====
-- The derived values of the cart, the `useMemo` of customer-web/src/lib/cart-context.tsx. Servings
-- are kept doubled, since `servesAvg` halves a whole number. The quotients are left as pairs: the test
-- `coverageRatio >= 1` on doubles is the test on whole numbers that stands here, as division rounds
-- to a value of at least 1 exactly when the quotient is at least 1.
pub mod Laws
pub mod Groups
use dinner_rush.Prelude.{
  ℕ, ◌+◌, ◌*◌, String, Bool, ◌&&◌, Option, none, some, List, [], ◌∷◌, ◌++◌, map, filter, get_or,
  is_some, length, ltb, leb, ◌==◌, if◌then◌else◌,
}
use dinner_rush.Prelude.Doubles.{times_round}
use dinner_rush.Prelude.Maps.{lookup, insert}
use dinner_rush.Types.{Dish, Restaurant, CartItem}
use dinner_rush.Catalog.{dish_map, restaurant_map}

abbrev pub free_delivery_over : ℕ
free_delivery_over = 250

abbrev pub delivery_fee_flat : ℕ
delivery_fee_flat = 35

-- Twice the `servesAvg` of customer-web/src/lib/utils.ts.
abbrev pub serves_twice : Dish → ℕ
serves_twice d = d.serves_min + d.serves_max

pub record GroupedRestaurant : Type 0 where
  pub restaurant : Restaurant
  pub lines : List (Dish × ℕ)
  pub subtotal : ℕ
  pub servings : ℕ  -- doubled

-- The variables of the loop.
pub record Tally : Type 0 where
  pub groups : List (String × GroupedRestaurant)
  pub subtotal : ℕ
  pub servings : ℕ  -- doubled
  pub count : ℕ

abbrev pub no_tally : Tally
no_tally = record { groups = []; subtotal = 0; servings = 0; count = 0 }

abbrev pub new_group : Restaurant → GroupedRestaurant
new_group r = record { restaurant = r; lines = []; subtotal = 0; servings = 0 }

abbrev pub add_line : Dish → ℕ → GroupedRestaurant → GroupedRestaurant
add_line d qty g = record g {
  lines = g.lines ++ (d, qty) ∷ [];
  subtotal = g.subtotal + d.price * qty;
  servings = g.servings + serves_twice d * qty;
}

-- One round, for an item whose dish and restaurant are found.
pub tally_line : Dish → Restaurant → ℕ → Tally → Tally
tally_line d r qty t =
    let g = get_or (lookup r.id t.groups) (new_group r) in
    record {
      groups = insert r.id (add_line d qty g) t.groups;
      subtotal = t.subtotal + d.price * qty;
      servings = t.servings + serves_twice d * qty;
      count = t.count + qty;
    }

-- `items.filter((i) => dishMap[i.dishId])`
pub valid_items : List CartItem → List CartItem
valid_items items = filter (λ i. is_some (lookup i.dish_id dish_map)) items

-- The loop over the valid items; `none` is the exception of `restaurant.id` on a restaurant that is
-- not in the catalog.
pub tally : List CartItem → Tally → Option Tally
unfolding tally_line
tally [] t = some t
tally (i ∷ rest) t = elim (lookup i.dish_id dish_map) [
  | none ↦ tally rest t
  | some d ↦ elim (lookup d.restaurant_id restaurant_map) [
    | none ↦ none
    | some r ↦ tally rest (tally_line d r i.qty t)
  ]
]

pub record Derived : Type 0 where
  pub grouped : List GroupedRestaurant
  pub restaurant_ids : List String
  pub restaurant_count : ℕ
  pub subtotal : ℕ
  pub delivery_fee : ℕ
  pub service_fee : ℕ
  pub tax : ℕ
  pub total : ℕ
  pub per_person : ℕ × ℕ  -- a quotient
  pub total_servings : ℕ  -- doubled
  pub coverage_ratio : ℕ × ℕ  -- a quotient
  pub covered : Bool
  pub item_count : ℕ
  pub distinct_dishes : ℕ

pub delivery_fee_of : ℕ → ℕ
delivery_fee_of subtotal =
    if subtotal == 0 then 0 else if leb free_delivery_over subtotal then 0 else delivery_fee_flat

-- `Math.round(subtotal * 0.07)`
pub service_fee_of : ℕ → ℕ
service_fee_of subtotal = times_round 1261007895663739 54 subtotal

-- `Math.round(subtotal * 0.0875)`
unfoldable pub tax_of : ℕ → ℕ
tax_of subtotal = times_round 3152519739159347 55 subtotal

pub total_of : ℕ → ℕ
unfolding delivery_fee_of service_fee_of tax_of
total_of subtotal = subtotal + delivery_fee_of subtotal + service_fee_of subtotal + tax_of subtotal

unfoldable pub summarise : List CartItem → ℕ → Tally → Derived
unfolding total_of valid_items
summarise items headcount t =
    let grouped : List GroupedRestaurant = map (λ e. e.1) t.groups in
    record {
      grouped = grouped;
      restaurant_ids = map (λ g. g.restaurant.id) grouped;
      restaurant_count = length grouped;
      subtotal = t.subtotal;
      delivery_fee = delivery_fee_of t.subtotal;
      service_fee = service_fee_of t.subtotal;
      tax = tax_of t.subtotal;
      total = total_of t.subtotal;
      per_person = if ltb 0 headcount then (total_of t.subtotal, headcount) else (0, 1);
      total_servings = t.servings;
      coverage_ratio = if ltb 0 headcount then (t.servings, 2 * headcount) else (0, 1);
      covered = ltb 0 headcount && leb (2 * headcount) t.servings;
      item_count = t.count;
      distinct_dishes = length (valid_items items);
    }

unfoldable pub derive : List CartItem → ℕ → Option Derived
unfolding tally summarise
derive items headcount = elim (tally (valid_items items) no_tally) [
  | none ↦ none
  | some t ↦ some (summarise items headcount t)
]
