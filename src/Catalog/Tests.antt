-- ===== src/Catalog/Tests.antt =====
-- What the maps of the catalog find, at the first entry of each.
use dinner_rush.Prelude.{true, Option, none, some, ◌≡◌, refl, is_some, get_elem?}
use dinner_rush.Prelude.Maps.{lookup}
use dinner_rush.Types.{Dish}
use dinner_rush.Catalog.Dishes.{dishes}
use dinner_rush.Catalog.{dish_map}

abbrev the : {A : Type 0} (o : Option A) → is_some o ≡ true → A
the none h = absurd (cc)
the (some a) h = a

abbrev dish : Dish
dish = the (get_elem? dishes 0) refl

dish_found : lookup dish.id dish_map ≡ some dish
unfolding dish_map
dish_found = refl
