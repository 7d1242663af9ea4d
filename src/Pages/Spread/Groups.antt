-- ===== src/Pages/Spread/Groups.antt =====
-- The sections of the page of a bundle divide its dishes among its restaurants.
use dinner_rush.Prelude.{
  ℕ, ◌+◌, String, true, false, not, ◌&&◌, some, List, [], ◌∷◌, map, str_eq, eq_iff, filter_map-none,
  filter_map-some, All-zip, All-filter_self, All-filter_map, All-mono, All-filter, All-map,
  All-intro, subst, ◌≤◌, if◌then◌else◌, filter, filter_map, length, ltb, sum_of, is_some, ◌≡◌, refl,
  sym, ◌∙◌, arith, Option-cases, inl, inr, All,
}
use dinner_rush.Prelude.Maps.{lookup, includes, no_repeats}
use dinner_rush.Types.{Dish, Restaurant, CuratedBundle}
use dinner_rush.Catalog.{
  dish_map, restaurant_map, restaurant_id_of, distinct_from, bundle_restaurants,
}
use dinner_rush.Catalog.Integrity.{dish_map-IsServable, restaurant_map-id}
use dinner_rush.Pages.Spread.{included_dishes, DishGroup, group_for, groups}

includes-distinct_from :
    (xs seen : List String) (k : String)
    → includes (distinct_from seen xs) k ≡ (includes xs k && not (includes seen k))
includes-distinct_from [] seen k = refl
includes-distinct_from (x ∷ xs) seen k =
    ground
      (arith, includes-distinct_from xs seen k, includes-distinct_from xs (x ∷ seen) k, eq_iff x k)

distinct_from-no_repeats : (xs seen : List String) → no_repeats (distinct_from seen xs) ≡ true
distinct_from-no_repeats [] seen = refl
distinct_from-no_repeats (x ∷ xs) seen = ground (
  arith,
  distinct_from-no_repeats xs seen,
  distinct_from-no_repeats xs (x ∷ seen),
  includes-distinct_from xs (x ∷ seen) x,
  eq_iff x x,
)

abbrev ids_of : List Restaurant → List String
ids_of rs = map (λ r. r.id) rs

abbrev found : List String → List Restaurant
found ks = filter_map (λ k. lookup k restaurant_map) ks

includes-found :
    (ks : List String) (k : String)
    → includes (ids_of (found ks)) k ≡ (includes ks k && is_some (lookup k restaurant_map))
includes-found [] k = refl
includes-found (j ∷ ks) k = elim (Option-cases (lookup j restaurant_map)) [
  | inl gone ↦ ground (arith, gone, includes-found ks k, eq_iff j k)
  | inr (r, at) ↦ ground (arith, at, restaurant_map-id j r at, includes-found ks k, eq_iff j k)
]

found-no_repeats : (ks : List String) → no_repeats ks ≡ true → no_repeats (ids_of (found ks)) ≡ true
found-no_repeats [] h = refl
found-no_repeats (j ∷ ks) h = elim (Option-cases (lookup j restaurant_map)) [
  | inl gone ↦ ground (arith, gone, found-no_repeats ks)
  | inr (r, at) ↦
      ground (arith, at, restaurant_map-id j r at, found-no_repeats ks, includes-found ks j)
]

bundle_restaurants-no_repeats :
    (b : CuratedBundle) → no_repeats (ids_of (bundle_restaurants b)) ≡ true
unfolding bundle_restaurants
bundle_restaurants-no_repeats b =
    found-no_repeats (distinct_from [] (filter_map restaurant_id_of b.dish_ids))
      (distinct_from-no_repeats (filter_map restaurant_id_of b.dish_ids) [])

no_restaurant_unnamed : is_some (lookup "" restaurant_map) ≡ false
unfolding restaurant_map
no_restaurant_unnamed = refl

named : (k : String) → is_some (lookup k restaurant_map) ≡ true → str_eq k "" ≡ false
named k h = ground (arith, eq_iff k "", no_restaurant_unnamed)

restaurant_id_of_found :
    (id : String) (d : Dish)
    → lookup id dish_map ≡ some d
    → restaurant_id_of id ≡ some d.restaurant_id
restaurant_id_of_found id d e =
    rw (e, restaurant_id_of) (rw (named d.restaurant_id (dish_map-IsServable id d e).kitchen) refl)

abbrev dishes_of : List String → List Dish
dishes_of ids = filter_map (λ id. lookup id dish_map) ids

abbrev kitchen_ids : List String → List String
kitchen_ids ids = filter_map restaurant_id_of ids

kitchen_ids-cons :
    (id k : String) (ids : List String)
    → includes (kitchen_ids ids) k ≡ true
    → includes (kitchen_ids (id ∷ ids)) k ≡ true
kitchen_ids-cons id k ids h = elim (Option-cases (restaurant_id_of id)) [
  | inl gone ↦ rw (filter_map-none restaurant_id_of id ids gone) h
  | inr (j, at) ↦ rw (filter_map-some restaurant_id_of id ids j at) (ground (arith, h))
]

AreKnown : List String → List Dish → Type 0
AreKnown ks ds = All (λ d. includes ks d.restaurant_id ≡ true) ds

dishes_of-AreKnown : (ids : List String) → AreKnown (kitchen_ids ids) (dishes_of ids)
unfolding AreKnown
dishes_of-AreKnown [] = tt
dishes_of-AreKnown (id ∷ ids) =
    let rest : AreKnown (kitchen_ids (id ∷ ids)) (dishes_of ids) =
      All-mono (λ d. includes (kitchen_ids ids) d.restaurant_id ≡ true)
        (λ d. includes (kitchen_ids (id ∷ ids)) d.restaurant_id ≡ true)
        (λ d h. kitchen_ids-cons id d.restaurant_id ids h) (dishes_of ids)
        (dishes_of-AreKnown ids) in
    elim (Option-cases (lookup id dish_map)) [
      | inl gone ↦
          subst (AreKnown (kitchen_ids (id ∷ ids)))
            (sym (filter_map-none (λ id. lookup id dish_map) id ids gone)) rest
      | inr (d, at) ↦
          subst (AreKnown (kitchen_ids (id ∷ ids)))
            (sym (filter_map-some (λ id. lookup id dish_map) id ids d at))
            (
              rw
                  (filter_map-some restaurant_id_of id ids d.restaurant_id
                    (restaurant_id_of_found id d at))
                  (ground (arith, eq_iff d.restaurant_id d.restaurant_id)),
              rest,
            )
    ]

-- The dishes of the catalog have their restaurants in it.
kitchen_of-found :
    (ids : List String)
    → All (λ d. is_some (lookup d.restaurant_id restaurant_map) ≡ true) (dishes_of ids)
kitchen_of-found ids =
    All-filter_map (λ id. lookup id dish_map)
      (λ d. is_some (lookup d.restaurant_id restaurant_map) ≡ true)
      (λ id d e. (dish_map-IsServable id d e).kitchen) ids

module _ (w : Dish → ℕ) where
  abbrev weight : DishGroup → ℕ
  weight g = sum_of w g.dishes

  weight-cons :
      (d : Dish) (ds : List Dish) (rs : List Restaurant)
      → no_repeats (ids_of rs) ≡ true
      → sum_of weight (map (group_for (d ∷ ds)) rs)
        ≡ (if includes (ids_of rs) d.restaurant_id then w d else 0)
          + sum_of weight (map (group_for ds) rs)
  weight-cons d ds [] h = refl
  weight-cons d ds (r ∷ rs) h =
      ground (arith, weight-cons d ds rs, eq_iff d.restaurant_id r.id, eq_iff r.id d.restaurant_id)

  weight-none : (rs : List Restaurant) → sum_of weight (map (group_for []) rs) ≡ 0
  weight-none [] = refl
  weight-none (r ∷ rs) = omega (arith, weight-none rs)

  weight-groups :
      (ds : List Dish) (rs : List Restaurant)
      → no_repeats (ids_of rs) ≡ true
      → All (λ d. includes (ids_of rs) d.restaurant_id ≡ true) ds
      → sum_of weight (map (group_for ds) rs) ≡ sum_of w ds
  weight-groups [] rs h a = weight-none rs
  weight-groups (d ∷ ds) rs h (i, a) =
      ground (arith, weight-groups ds rs h a, weight-cons d ds rs h, i)

  weight-empty : (ds : List Dish) → ltb 0 (length ds) ≡ false → sum_of w ds ≡ 0
  weight-empty [] h = refl
  weight-empty (d ∷ ds) h = absurd (ground arith)

  weight-filter :
      (gs : List DishGroup)
      → sum_of weight (filter (λ g. ltb 0 (length g.dishes)) gs) ≡ sum_of weight gs
  weight-filter [] = refl
  weight-filter (g ∷ gs) = ground (arith, weight-filter gs, weight-empty g.dishes)

kitchens_found :
    (b : CuratedBundle)
    → All (λ d. includes (ids_of (bundle_restaurants b)) d.restaurant_id ≡ true) (included_dishes b)
unfolding bundle_restaurants included_dishes AreKnown
kitchens_found b =
    All-zip _ _ _
      (λ (d : Dish) known at. ground (
        arith,
        known,
        at,
        includes-found (distinct_from [] (kitchen_ids b.dish_ids)) d.restaurant_id,
        includes-distinct_from (kitchen_ids b.dish_ids) [] d.restaurant_id,
      ))
      (dishes_of b.dish_ids) (dishes_of-AreKnown b.dish_ids) (kitchen_of-found b.dish_ids)

abbrev pub IsOwn : DishGroup → Type 0
IsOwn g = All (λ d. d.restaurant_id ≡ g.restaurant.id) g.dishes

group_for-IsOwn : (ds : List Dish) (r : Restaurant) → IsOwn (group_for ds r)
group_for-IsOwn ds r =
    All-mono _ _ (λ (d : Dish) h. (eq_iff d.restaurant_id r.id).0 h)
      (filter (λ d. str_eq d.restaurant_id r.id) ds)
      (All-filter_self (λ d. str_eq d.restaurant_id r.id) ds)

-- The sections of a bundle's page divide its dishes: however a dish is weighed, by its price, its
-- servings or as one, the sections weigh together what the included dishes weigh, so that none is left
-- out and none is shown twice; a section has a dish, and its dishes are of its restaurant.
pub groups-IsDivision :
    (w : Dish → ℕ) (b : CuratedBundle)
    → (sum_of (λ g. sum_of w g.dishes) (groups b) ≡ sum_of w (included_dishes b))
      × All (λ g. 1 ≤ length g.dishes) (groups b)
      × All IsOwn (groups b)
unfolding groups
groups-IsDivision w b =
    let ds : List Dish = included_dishes b in
    let all_groups : List DishGroup = map (group_for ds) (bundle_restaurants b) in
    (
      weight-filter w (map (group_for (included_dishes b)) (bundle_restaurants b))
          ∙ weight-groups w (included_dishes b) (bundle_restaurants b)
              (bundle_restaurants-no_repeats b) (kitchens_found b),
      All-mono _ _ (λ (g : DishGroup) h. ground (arith, h))
          (filter (λ g. ltb 0 (length g.dishes)) all_groups) (All-filter_self _ all_groups),
      All-filter IsOwn (λ g. ltb 0 (length g.dishes)) all_groups
          (All-map IsOwn (group_for ds) (bundle_restaurants b)
            (All-intro _ (group_for-IsOwn ds) (bundle_restaurants b))),
    )
