-- ===== src/Pages/Spread/Tests.antt =====
-- The page of the lunch around the world, which four restaurants cook.
use dinner_rush.Prelude.{
  get_elem?, false, ◌≤◌, some, none, [], ◌∷◌, map, length, sum_of, All, ◌≡◌, refl, get_or,
}
use dinner_rush.Types.{CuratedBundle}
use dinner_rush.Catalog.{dish_map, restaurant_map, bundle_restaurants}
use dinner_rush.Cart.{Cart}
use dinner_rush.Cart.Totals.{Derived}
use dinner_rush.Pages.Spread.{
  static_params, value_props, find_bundle, included_dishes, groups, spread_of, spread, metadata,
  bundle_total, savings, a_la_carte,
}
use dinner_rush.Pages.Spread.Groups.{IsOwn, groups-IsDivision}
use dinner_rush.Pages.Spread.Charge.{IsCharge, add_bundle-IsCharge}

abbrev nobody : CuratedBundle
nobody = record {
  id = "";
  slug = "";
  name = "";
  tagline = "";
  description = "";
  serves = 0;
  price_per_person = 0;
  image = "";
  theme = "";
  dish_ids = [];
  tags = [];
  popular = none;
}

abbrev world : CuratedBundle
world = get_or (find_bundle "around-the-world-lunch") nobody

abbrev fresh : Cart
fresh = record { items = []; headcount = 10; is_cart_open = false; just_added = 0 }

world_found : spread "around-the-world-lunch" ≡ some (spread_of world)
unfolding spread find_bundle
world_found = refl

world_prices : ((spread_of world).total ≡ 336) × ((spread_of world).saved ≡ 154)
unfolding spread_of find_bundle bundle_total savings a_la_carte included_dishes dish_map
world_prices = (refl, refl)

world_sections :
    map (λ g. g.restaurant.id) (groups world) ≡ "fuego" ∷ "sakura" ∷ "saffron" ∷ "verde" ∷ []
unfolding groups find_bundle included_dishes bundle_restaurants dish_map restaurant_map
world_sections = refl

not_found :
    (spread "no-such-bundle" ≡ none)
    × ((metadata "no-such-bundle").title ≡ "Bundle not found · Dinner Rush")
unfolding spread find_bundle metadata
not_found = (refl, refl)

groups-IsDivision_example :
    (sum_of (λ g. sum_of (λ d. d.price) g.dishes) (groups world)
      ≡ sum_of (λ d. d.price) (included_dishes world))
    × All (λ g. 1 ≤ length g.dishes) (groups world)
    × All IsOwn (groups world)
groups-IsDivision_example = groups-IsDivision (λ d. d.price) world

add_bundle-IsCharge_example : (v : Derived) × (v' : Derived) × IsCharge (spread_of world) fresh v v'
add_bundle-IsCharge_example =
    add_bundle-IsCharge "around-the-world-lunch" (spread_of world) fresh world_found

first_path : get_elem? static_params 0 ≡ some "around-the-world-lunch"
unfolding static_params
first_path = refl

props : map (λ p. p.color) value_props ≡ "#c7341a" ∷ "#6d28c9" ∷ "#157a4e" ∷ []
unfolding value_props
props = refl
