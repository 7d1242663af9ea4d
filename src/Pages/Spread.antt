-- ===== src/Pages/Spread.antt =====
-- The page of a curated bundle, customer-web/src/app/bundles/[slug]/page.tsx: what it computes from
-- the catalog before it renders. Servings are doubled, as in Cart/Totals.
pub mod Groups
pub mod Charge
mod Tests
use dinner_rush.Prelude.{
  ℕ, ◌-◌, ◌*◌, String, Option, none, some, List, [], ◌∷◌, map, not, str_eq, filter, filter_map,
  find?, length, ltb, sum_of,
}
use dinner_rush.Prelude.Text.{◌+s◌}
use dinner_rush.Prelude.Maps.{lookup}
use dinner_rush.Types.{Dish, Restaurant, CuratedBundle}
use dinner_rush.Catalog.{dish_map, bundle_restaurants}
use dinner_rush.Catalog.Bundles.{bundles}
use dinner_rush.Cart.Totals.{serves_twice}

static_params : List String
static_params = map (λ b. b.slug) bundles

pub find_bundle : String → Option CuratedBundle
find_bundle slug = find? (λ b. str_eq b.slug slug) bundles

record Metadata : Type 0 where
  title : String
  description : Option String

metadata : String → Metadata
unfolding find_bundle
metadata slug = elim (find_bundle slug) [
  | none ↦ record { title = "Bundle not found · Dinner Rush"; description = none }
  | some b ↦ record { title = b.name +s " · Dinner Rush"; description = some b.description }
]

-- A prop of the page without its icon.
record ValueProp : Type 0 where
  title : String
  body : String
  color : String

value_props : List ValueProp
value_props =
    record {
      title = "Sized for your headcount";
      body =
          "Every tray is portioned for groups, and our live coverage meter makes sure all your guests are fed — without over-ordering.";
      color = "#c7341a";
    }
    ∷ record {
      title = "Several kitchens, one cart";
      body =
          "We hand-picked dishes from multiple local restaurants so the whole room gets something they love — no compromise.";
      color = "#6d28c9";
    }
    ∷ record {
      title = "One delivery, one invoice";
      body =
          "Everything arrives together, labeled and set up — and finance gets a single clean bill instead of five.";
      color = "#157a4e";
    }
    ∷ []

pub included_dishes : CuratedBundle → List Dish
included_dishes b = filter_map (λ id. lookup id dish_map) b.dish_ids

pub bundle_servings : CuratedBundle → ℕ
unfolding included_dishes
bundle_servings b = sum_of serves_twice (included_dishes b)

pub bundle_total : CuratedBundle → ℕ
bundle_total b = b.price_per_person * b.serves

pub a_la_carte : CuratedBundle → ℕ
unfolding included_dishes
a_la_carte b = sum_of (λ d. d.price) (included_dishes b)

-- `Math.max(0, aLaCarte - total)`
pub savings : CuratedBundle → ℕ
unfolding bundle_total a_la_carte
savings b = a_la_carte b - bundle_total b

pub record DishGroup : Type 0 where
  pub restaurant : Restaurant
  pub dishes : List Dish

abbrev pub group_for : List Dish → Restaurant → DishGroup
group_for ds r = record { restaurant = r; dishes = filter (λ d. str_eq d.restaurant_id r.id) ds }

pub groups : CuratedBundle → List DishGroup
unfolding included_dishes bundle_restaurants
groups b =
    filter (λ g. ltb 0 (length g.dishes))
      (map (group_for (included_dishes b)) (bundle_restaurants b))

more_bundles : CuratedBundle → List CuratedBundle
more_bundles bundle = filter (λ b. not (str_eq b.id bundle.id)) bundles

-- What the page shows; `none` is `notFound()`.
pub record Spread : Type 0 where
  pub bundle : CuratedBundle
  pub rests : List Restaurant
  pub dishes : List Dish
  pub servings : ℕ  -- doubled
  pub total : ℕ
  pub saved : ℕ
  pub sections : List DishGroup
  pub more : List CuratedBundle

pub spread_of : CuratedBundle → Spread
unfolding bundle_restaurants included_dishes bundle_servings bundle_total savings groups
    more_bundles
spread_of b = record {
  bundle = b;
  rests = bundle_restaurants b;
  dishes = included_dishes b;
  servings = bundle_servings b;
  total = bundle_total b;
  saved = savings b;
  sections = groups b;
  more = more_bundles b;
}

pub spread : String → Option Spread
spread slug = elim (find_bundle slug) [ none ↦ none | some b ↦ some (spread_of b) ]
