-- ===== src/Pages/Configurator.antt =====
-- The configurator of a catering package, customer-web/src/app/packages/[slug]/configurator.tsx.
mod Tests
use dinner_rush.Prelude.{
  ℕ, zero, suc, ◌+◌, ◌-◌, ◌*◌, ◌/◌, ◌%◌, ◌≤◌, ◌<◌, String, Bool, true, false, not, Option, none,
  some, List, [], ◌∷◌, ◌++◌, map, ◌≡◌, refl, str_eq, eq_iff, if◌then◌else◌, length, length-append,
  length-filter-le, filter, all, ltb, leb, ◌==◌, ◌||◌, max, min, arith, All, inl, inr, ◌⊎◌, ◌≢◌,
}
use native.Mathlib.Nat.{div-add-mod', mod-lt}
use dinner_rush.Prelude.Int.{pos}
use dinner_rush.Prelude.Maps.{lookup, includes, no_repeats}
use dinner_rush.Types.{Dish, PackageSection, CateringPackage}
use dinner_rush.Catalog.{dish_map}
use dinner_rush.Cart
use dinner_rush.Cart.{Cart}

record Configuring : Type 0 where
  guests : ℕ
  sel : List (List String)

-- The initial state, `Math.max(pkg.minGuests, 20)` guests and nothing selected.
configuring : CateringPackage → Configuring
configuring pkg = record { guests = max pkg.min_guests 20; sel = map (λ s. []) pkg.sections }

set_guest_count : CateringPackage → ℕ → Configuring → Configuring
set_guest_count pkg n c = record c { guests = max pkg.min_guests (min 500 n) }

-- A press on a dish of one section, whose limit is `limit`.
toggle_dish : ℕ → String → List String → List String
toggle_dish limit dish_id cur =
    let has = includes cur dish_id in
    if limit == 1
    then (if has then [] else dish_id ∷ [])
    else if has
    then filter (λ d. not (str_eq d dish_id)) cur
    else if ltb (length cur) limit
    then cur ++ dish_id ∷ []
    else cur

-- The section `si` of the selections, where the package has one with that number.
toggle_at : List PackageSection → ℕ → String → List (List String) → List (List String)
unfolding toggle_dish
toggle_at [] si dish_id sel = sel
toggle_at (s ∷ ss) si dish_id [] = []
toggle_at (s ∷ ss) zero dish_id (cur ∷ sel) = toggle_dish s.max_selections dish_id cur ∷ sel
toggle_at (s ∷ ss) (suc si) dish_id (cur ∷ sel) = cur ∷ toggle_at ss si dish_id sel

toggle : CateringPackage → ℕ → String → Configuring → Configuring
unfolding toggle_at
toggle pkg si dish_id c = record c { sel = toggle_at pkg.sections si dish_id c.sel }

-- `Math.max(1, Math.ceil(guests / servesAvg(dish.serves)))`: the average is half a whole number, so
-- the quotient is twice the guests by a whole number; doubles of this size round it to a whole number
-- only where it is one.
unfoldable pub qty_for : ℕ → Dish → ℕ
qty_for guests dish =
    let serves = dish.serves_min + dish.serves_max in max 1 ((2 * guests + serves - 1) / serves)

chosen : List (List String) → List String
chosen [] = []
chosen (s ∷ ss) = s ++ chosen ss

-- `dishMap[id].price * qtyFor(id)`, summed; `none` is the exception for an id that is not on the menu.
unfoldable pub est_total : ℕ → List String → Option ℕ
unfolding qty_for
est_total guests [] = some 0
est_total guests (id ∷ ids) = elim (lookup id dish_map) [
  | none ↦ none
  | some dish ↦ elim (est_total guests ids) [
    | none ↦ none
    | some rest ↦ some (dish.price * qty_for guests dish + rest)
  ]
]

is_valid : Configuring → Bool
is_valid c = all (λ s. leb 1 (length s)) c.sel

-- The loop of `addToBundle`.
unfoldable pub add_chosen : ℕ → List String → Cart → Cart
unfolding qty_for Cart.add
add_chosen guests [] cart = cart
add_chosen guests (id ∷ ids) cart = elim (lookup id dish_map) [
  | none ↦ cart
  | some dish ↦ add_chosen guests ids (Cart.add id (qty_for guests dish) cart)
]

add_to_bundle : Configuring → Cart → Cart
unfolding add_chosen chosen Cart.set_headcount
add_to_bundle c cart = add_chosen c.guests (chosen c.sel) (Cart.set_headcount (pos c.guests) cart)

-- The selections of a package: for each section no more dishes than its limit, none twice.
AreSelected : List PackageSection → List (List String) → Type 0
AreSelected [] [] = Unit
AreSelected [] (cur ∷ sel) = ⊥
AreSelected (s ∷ ss) [] = ⊥
AreSelected (s ∷ ss) (cur ∷ sel) =
    (length cur ≤ s.max_selections) × (no_repeats cur ≡ true) × AreSelected ss sel

includes-filter :
    (p : String → Bool) (k : String) (xs : List String)
    → includes xs k ≡ false
    → includes (filter p xs) k ≡ false
includes-filter p k [] h = refl
includes-filter p k (x ∷ xs) h = ground (arith, includes-filter p k xs)

no_repeats-filter :
    (p : String → Bool) (xs : List String) → no_repeats xs ≡ true → no_repeats (filter p xs) ≡ true
no_repeats-filter p [] h = refl
no_repeats-filter p (x ∷ xs) h = ground (arith, no_repeats-filter p xs, includes-filter p x xs)

includes-push :
    (k id : String) (xs : List String) → includes (xs ++ id ∷ []) k ≡ (includes xs k || str_eq id k)
includes-push k id [] = ground arith
includes-push k id (x ∷ xs) = ground (arith, includes-push k id xs)

no_repeats-push :
    (id : String) (xs : List String)
    → includes xs id ≡ false
    → no_repeats xs ≡ true
    → no_repeats (xs ++ id ∷ []) ≡ true
no_repeats-push id [] n h = refl
no_repeats-push id (x ∷ xs) n h =
    ground (arith, no_repeats-push id xs, includes-push x id xs, eq_iff x id, eq_iff id x)

toggle_dish-bounds :
    (limit : ℕ) (id : String) (cur : List String)
    → 1 ≤ limit
    → length cur ≤ limit
    → no_repeats cur ≡ true
    → (length (toggle_dish limit id cur) ≤ limit) × (no_repeats (toggle_dish limit id cur) ≡ true)
unfolding toggle_dish
toggle_dish-bounds limit id cur p h n = ground (
  arith,
  length-filter-le (λ (d : String). not (str_eq d id)) cur,
  no_repeats-filter (λ (d : String). not (str_eq d id)) cur,
  length-append {0} cur (id ∷ []),
  no_repeats-push id cur,
)

IsLimited : PackageSection → Type 0
IsLimited s = 1 ≤ s.max_selections

-- A press on a dish leaves every section within its limit, and no dish selected twice in it.
toggle-AreSelected :
    (ss : List PackageSection) (si : ℕ) (id : String) (sel : List (List String))
    → All (λ s. 1 ≤ s.max_selections) ss
    → AreSelected ss sel
    → AreSelected ss (toggle_at ss si id sel)
unfolding toggle_at AreSelected
toggle-AreSelected [] si id [] p h = tt
toggle-AreSelected [] si id (cur ∷ sel) p h = h
toggle-AreSelected (s ∷ ss) si id [] p h = h
toggle-AreSelected (s ∷ ss) zero id (cur ∷ sel) (p, ps) (h, n, hs) =
    let (short, once) = toggle_dish-bounds s.max_selections id cur p h n in (short, once, hs)
toggle-AreSelected (s ∷ ss) (suc si) id (cur ∷ sel) (p, ps) (h, n, hs) =
    (h, n, toggle-AreSelected ss si id sel ps hs)

includes-filter_self :
    (id : String) (xs : List String) → includes (filter (λ d. not (str_eq d id)) xs) id ≡ false
includes-filter_self id [] = refl
includes-filter_self id (x ∷ xs) = ground (arith, includes-filter_self id xs)

includes-filter_other :
    (id k : String) (xs : List String)
    → str_eq k id ≡ false
    → includes (filter (λ d. not (str_eq d id)) xs) k ≡ includes xs k
includes-filter_other id k [] h = refl
includes-filter_other id k (x ∷ xs) h =
    ground (arith, includes-filter_other id k xs, eq_iff x k, eq_iff x id, eq_iff k id)

-- A press takes a selected dish away and keeps the others; it adds a dish that is not selected where
-- there is room, or in place of the other where one is the limit; and at the limit it changes nothing.
toggle_dish_lem :
    (limit : ℕ) (id : String) (cur : List String)
    → (includes cur id ≡ true → includes (toggle_dish limit id cur) id ≡ false)
      × (includes cur id ≡ false
          → (length cur < limit) ⊎ (limit ≡ 1)
          → includes (toggle_dish limit id cur) id ≡ true)
      × (includes cur id ≡ false → limit ≤ length cur → limit ≢ 1 → toggle_dish limit id cur ≡ cur)
      × ((k : String)
          → str_eq k id ≡ false
          → str_eq id k ≡ false
          → limit ≢ 1
          → includes (toggle_dish limit id cur) k ≡ includes cur k)
unfolding toggle_dish
toggle_dish_lem limit id cur = (
  ground (arith, includes-filter_self id cur),
  ground (arith, includes-push id id cur, eq_iff id id),
  ground arith,
  λ k a b n. ground (arith, includes-filter_other id k cur, includes-push k id cur),
)

suc-times : (j s : ℕ) → suc j * s ≡ s + j * s
suc-times j s = omega arith

ceiling :
    (k s a r : ℕ)
    → k * s + r ≡ a + s - 1
    → r < s
    → (a ≤ max 1 k * s) × (1 ≤ max 1 k) × ((max 1 k ≡ 1) ⊎ ((max 1 k - 1) * s < a))
ceiling zero s a r e l = (omega (arith, e, l), omega arith, inl (omega arith))
ceiling (suc zero) s a r e l = (omega (arith, e, l), omega arith, inl (omega arith))
ceiling (suc (suc j)) s a r e l =
    let big : max 1 (suc (suc j)) ≡ suc (suc j) = omega arith in
    let less : suc (suc j) - 1 ≡ suc j = omega arith in
    rw big (
      omega (arith, e, l, suc-times (suc j) s),
      omega arith,
      inr (rw less (omega (arith, e, l, suc-times (suc j) s, suc-times j s))),
    )

-- The quantity of a chosen dish serves the guests at the average of its servings, and is the least
-- that does: one less serves fewer, unless it is one.
qty_for_lem :
    (guests : ℕ) (dish : Dish)
    → 1 ≤ dish.serves_min
    → let q = qty_for guests dish in
      let serves = dish.serves_min + dish.serves_max in
      (2 * guests ≤ q * serves) × (1 ≤ q) × ((q ≡ 1) ⊎ ((q - 1) * serves < 2 * guests))
unfolding qty_for
qty_for_lem guests dish h =
    let serves = dish.serves_min + dish.serves_max in
    let a = 2 * guests + serves - 1 in
    ceiling (a / serves) serves (2 * guests) (a % serves) (div-add-mod' a serves)
      (mod-lt a (omega (arith, h)))
