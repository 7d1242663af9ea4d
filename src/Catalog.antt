-- ===== src/Catalog.antt =====
-- The catalog, customer-web/src/lib/data.ts: the tables, the objects made of them by
-- `Object.fromEntries` and the functions over them.
pub mod Image
pub mod Cuisines
pub mod Restaurants
pub mod Dishes
pub mod Bundles
pub mod Packages
pub mod Integrity
mod Tests
use dinner_rush.Prelude.{
  String, Bool, not, ◌||◌, Option, none, some, List, [], ◌∷◌, map, str_eq, if◌then◌else◌, any,
  filter, filter_map, flat_map, get_or, false, take,
}
use dinner_rush.Prelude.Maps.{lookup, index_by, includes}
use dinner_rush.Types.{
  CuisineKey, Cuisine, Restaurant, Dish, CuratedBundle, PackageOption, PackageSection,
  CateringPackage, cuisine_name,
}
use Cuisines.{cuisines}
use Restaurants.{restaurants}
use Dishes.{dishes}
use Bundles.{bundles}
use Packages.{packages}

-- The objects that the program reads as `dishMap[id]`: own keys alone, a missing one is `none`.
unfoldable pub cuisine_map : List (String × Cuisine)
cuisine_map = index_by (λ c. cuisine_name c.key) cuisines

unfoldable pub restaurant_map : List (String × Restaurant)
restaurant_map = index_by (λ r. r.id) restaurants

unfoldable pub dish_map : List (String × Dish)
dish_map = index_by (λ d. d.id) dishes

unfoldable pub bundle_map : List (String × CuratedBundle)
bundle_map = index_by (λ b. b.id) bundles

-- Keyed by the slug.
pub package_map : List (String × CateringPackage)
package_map = index_by (λ p. p.slug) packages

unfoldable pub dishes_by_restaurant : String → List Dish
dishes_by_restaurant restaurant_id = filter (λ d. str_eq d.restaurant_id restaurant_id) dishes

-- `Array.from(new Set(xs))`: the first occurrence of each, in order; `seen` holds the earlier ones.
abbrev pub distinct_from : List String → List String → List String
distinct_from seen [] = []
distinct_from seen (x ∷ xs) =
    let rest = distinct_from (x ∷ seen) xs in
    let skip = distinct_from seen xs in if includes seen x then skip else x ∷ rest

-- `dishMap[id]?.restaurantId`, with `filter(Boolean)` taking out a missing one and an empty text.
abbrev pub restaurant_id_of : String → Option String
restaurant_id_of id = elim (lookup id dish_map) [
  | none ↦ none
  | some d ↦ if str_eq d.restaurant_id "" then none else some d.restaurant_id
]

abbrev pub restaurants_of : List String → List Restaurant
restaurants_of dish_ids =
    filter_map (λ id. lookup id restaurant_map)
      (distinct_from [] (filter_map restaurant_id_of dish_ids))

unfoldable pub bundle_restaurants : CuratedBundle → List Restaurant
unfolding dish_map restaurant_map
bundle_restaurants b = restaurants_of b.dish_ids

pub package_restaurants : CateringPackage → List Restaurant
unfolding dish_map restaurant_map
package_restaurants p =
    restaurants_of (
      flat_map (λ (s : PackageSection). map (λ (o : PackageOption). o.dish_id) s.options)
        p.sections)

pub featured_restaurants : List Restaurant
featured_restaurants = filter (λ r. get_or r.featured false) restaurants

unfoldable pub popular_dishes : List Dish
popular_dishes = filter (λ d. get_or d.popular false) dishes
