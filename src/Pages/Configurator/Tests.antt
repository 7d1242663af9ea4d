-- ===== src/Pages/Configurator/Tests.antt =====
-- A package with one section of up to two dishes.
use dinner_rush.Prelude.{String, none, List, [], ◌∷◌, refl, arith}
use dinner_rush.Types.{Dish, CuisineKey, PackageSection}
use dinner_rush.Pages.Configurator.{AreSelected, toggle_at, toggle-AreSelected}

abbrev sections : List PackageSection
sections = record { name = "Mains"; max_selections = 2; options = [] } ∷ []

abbrev selected : List (List String)
selected = ("nonna-1" ∷ []) ∷ []

selected-AreSelected : AreSelected sections selected
unfolding AreSelected
selected-AreSelected = (omega arith, refl, tt)

toggle-AreSelected_example : AreSelected sections (toggle_at sections 0 "nonna-2" selected)
toggle-AreSelected_example =
    toggle-AreSelected sections 0 "nonna-2" selected (omega arith, tt) selected-AreSelected

abbrev dish : Dish
dish = record {
  id = "d";
  restaurant_id = "nonna";
  name = "Rigatoni";
  description = "";
  price = 78;
  serves_min = 8;
  serves_max = 10;
  image = "";
  cuisine = CuisineKey.italian;
  dietary = [];
  popular = none;
  is_new = none;
  category = "Pasta";
}
