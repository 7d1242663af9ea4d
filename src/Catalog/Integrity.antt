-- ===== src/Catalog/Integrity.antt =====
-- The tables of customer-web/src/lib/data.ts fit together: what the cart, the checkout and the
-- configurator take for granted when they read `dishMap` and `restaurantMap`.
use dinner_rush.Prelude.{
  ◌≤◌, String, Bool, true, ◌&&◌, some, List, map, ◌≡◌, refl, leb, is_some, all, length, All, Occurs,
  all_sound, arith, All-mono, All-intro,
}
use dinner_rush.Prelude.Maps.{lookup, no_repeats, index_by-All, lookup-index_by}
use dinner_rush.Types.{
  Restaurant, Dish, CuratedBundle, PackageSection, PackageOption, CateringPackage,
}
use dinner_rush.Catalog.Restaurants.{restaurants}
use dinner_rush.Catalog.Dishes.{dishes}
use dinner_rush.Catalog.Bundles.{bundles}
use dinner_rush.Catalog.Packages.{packages}
use dinner_rush.Catalog.{restaurant_map, dish_map, bundle_map, package_map}

-- The checks of the tables, by evaluation.
abbrev dish_fits : Dish → Bool
dish_fits d =
    is_some (lookup d.restaurant_id restaurant_map)
    && leb 1 d.price
    && leb 1 d.serves_min
    && leb d.serves_min d.serves_max

dishes_fit : all dish_fits dishes ≡ true
unfolding restaurant_map
dishes_fit = refl

dish_ids_differ : no_repeats (map (λ d. d.id) dishes) ≡ true
dish_ids_differ = refl

abbrev known_dishes : List String → Bool
known_dishes ids = all (λ id. is_some (lookup id dish_map)) ids

abbrev bundle_fits : CuratedBundle → Bool
bundle_fits b = known_dishes b.dish_ids && no_repeats b.dish_ids && leb b.serves 500

bundles_fit : all bundle_fits bundles ≡ true
unfolding dish_map
bundles_fit = refl

abbrev section_fits : PackageSection → Bool
section_fits s =
    known_dishes (map (λ (o : PackageOption). o.dish_id) s.options)
    && leb 1 s.max_selections
    && leb s.max_selections (length s.options)

abbrev package_fits : CateringPackage → Bool
package_fits p = leb p.min_guests 500 && all section_fits p.sections

packages_fit : all package_fits packages ≡ true
unfolding dish_map
packages_fit = refl

-- What the readers of `dishMap[k]` rely on.
pub record IsServable (k : String) (d : Dish) : Type 0 where
  pub id_eq : d.id ≡ k
  pub priced : 1 ≤ d.price
  pub serves_some : 1 ≤ d.serves_min
  pub serves_ordered : d.serves_min ≤ d.serves_max
  pub kitchen : is_some (lookup d.restaurant_id restaurant_map) ≡ true

IsServable-of_fits : (d : Dish) → dish_fits d ≡ true → IsServable d.id d
IsServable-of_fits d h = ground arith

-- Whatever key finds a dish in `dishMap`, the dish has that id, costs something, serves somebody, and
-- its restaurant is in `restaurantMap`.
pub dish_map-IsServable : (k : String) (d : Dish) → lookup k dish_map ≡ some d → IsServable k d
unfolding dish_map
dish_map-IsServable =
    index_by-All (λ d. d.id) IsServable dishes
      (All-mono _ _ IsServable-of_fits dishes (all_sound dish_fits dishes dishes_fit))

-- `dishMap` hides no dish: each dish of the table is found under its own id.
pub lookup-dish_map : (d : Dish) → Occurs d dishes → lookup d.id dish_map ≡ some d
unfolding dish_map
lookup-dish_map d o = lookup-index_by (λ d. d.id) d dishes dish_ids_differ o

-- The restaurant that a key finds has that id.
pub restaurant_map-id : (k : String) (r : Restaurant) → lookup k restaurant_map ≡ some r → r.id ≡ k
unfolding restaurant_map
restaurant_map-id =
    index_by-All (λ r. r.id) (λ k r. r.id ≡ k) restaurants
      (All-intro (λ (r : Restaurant). r.id ≡ r.id) (λ r. refl) restaurants)

abbrev pub IsKnownDish : String → Type 0
IsKnownDish id = (d : Dish) × (lookup id dish_map ≡ some d)

IsKnownDish-of_is_some : (id : String) → is_some (lookup id dish_map) ≡ true → IsKnownDish id
IsKnownDish-of_is_some id h = ground arith

known_dishes_sound : (ids : List String) → known_dishes ids ≡ true → All IsKnownDish ids
known_dishes_sound ids h =
    All-mono _ _ IsKnownDish-of_is_some ids (all_sound (λ id. is_some (lookup id dish_map)) ids h)

abbrev pub IsBundle : CuratedBundle → Type 0
IsBundle b = All IsKnownDish b.dish_ids × (no_repeats b.dish_ids ≡ true) × (b.serves ≤ 500)

IsBundle-of_test : (b : CuratedBundle) → bundle_fits b ≡ true → IsBundle b
IsBundle-of_test b h = (known_dishes_sound b.dish_ids (ground arith), ground arith, ground arith)

-- Every bundle that `bundleMap` finds lists dishes of `dishMap` only, none twice, and serves at
-- most 500.
pub bundle_map-IsBundle :
    (k : String) (b : CuratedBundle) → lookup k bundle_map ≡ some b → IsBundle b
unfolding bundle_map
bundle_map-IsBundle =
    index_by-All (λ b. b.id) (λ k b. IsBundle b) bundles
      (All-mono _ _ IsBundle-of_test bundles (all_sound bundle_fits bundles bundles_fit))

-- What the configurator relies on: a section whose options exist can be filled up to its maximum.
pub record IsSection (s : PackageSection) : Type 0 where
  pub known : All IsKnownDish (map (λ (o : PackageOption). o.dish_id) s.options)
  pub selects_some : 1 ≤ s.max_selections
  pub selects_at_most : s.max_selections ≤ length s.options

abbrev pub IsPackage : CateringPackage → Type 0
IsPackage p = (p.min_guests ≤ 500) × All IsSection p.sections

IsSection-of_fits : (s : PackageSection) → section_fits s ≡ true → IsSection s
IsSection-of_fits s h = record {
  known = known_dishes_sound (map (λ (o : PackageOption). o.dish_id) s.options) (ground arith);
  selects_some = ground arith;
  selects_at_most = ground arith;
}

IsPackage-of_test : (p : CateringPackage) → package_fits p ≡ true → IsPackage p
IsPackage-of_test p h = (
  ground arith,
  All-mono _ _ IsSection-of_fits p.sections (all_sound section_fits p.sections (ground arith)),
)

-- Every package that `packageMap` finds asks for at most 500 guests, and each of its sections offers
-- only dishes of `dishMap`, lets the guest choose at least one, and at most as many as it offers.
pub package_map-IsPackage :
    (k : String) (p : CateringPackage) → lookup k package_map ≡ some p → IsPackage p
unfolding package_map
package_map-IsPackage =
    index_by-All (λ p. p.slug) (λ k p. IsPackage p) packages
      (All-mono _ _ IsPackage-of_test packages (all_sound package_fits packages packages_fit))
