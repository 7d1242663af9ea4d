-- ===== src/Pages/Browser/Tests.antt =====
-- A search of the restaurants by cuisine, diet and rating.
use dinner_rush.Prelude.{String, refl, true, [], ◌∷◌, map, ◌≡◌, ◌↔◌, Occurs}
use dinner_rush.Prelude.Maps.{no_repeats}
use dinner_rush.Prelude.Sort.{InOrder}
use dinner_rush.Types.{Restaurant, DietaryTag}
use dinner_rush.Catalog.Restaurants.{restaurants}
use dinner_rush.Pages.Browser.{SortKey, Controls, results}
use dinner_rush.Pages.Browser.Filter.{Meets}
use dinner_rush.Pages.Browser.Results.{Precedes, results_lem}

abbrev controls : Controls
controls = record {
  query = "";
  cuisine = "all";
  sort_key = SortKey.rating;
  diets = DietaryTag.vegan ∷ [];
}

abbrev as_typed : String → String
as_typed s = s

-- What a visitor sees of the restaurants with a vegan dish, the best rated first.
best_vegan :
    map (λ (r : Restaurant). r.id) (results as_typed controls)
    ≡ "verde" ∷ "fuego" ∷ "sakura" ∷ "olive" ∷ []
unfolding results
best_vegan = refl

results_lem_example :
    ((r : Restaurant)
      → Occurs r (results as_typed controls) ↔ (Occurs r restaurants × Meets as_typed controls r))
    × (no_repeats (map (λ (r : Restaurant). r.id) (results as_typed controls)) ≡ true)
    × InOrder (Precedes SortKey.rating) (results as_typed controls)
results_lem_example = results_lem as_typed controls
