-- ===== src/Types.antt =====
-- The storefront's data model, customer-web/src/lib/types.ts. Prices and servings are whole numbers
-- in the catalog; a rating has one decimal and is kept in tenths. An optional field is an `Option`.
use dinner_rush.Prelude.{ℕ, String, Bool, Option, List}

pub data CuisineKey : Type 0 where
  italian mexican asian healthy bbq mediterranean breakfast indian : CuisineKey

pub record Cuisine : Type 0 where
  pub key : CuisineKey
  pub label : String
  pub emoji : String
  pub color : String
  pub image : String

pub data DietaryTag : Type 0 where
  vegetarian vegan gluten_free spicy dairy_free : DietaryTag

pub record Dish : Type 0 where
  pub id : String
  pub restaurant_id : String
  pub name : String
  pub description : String
  pub price : ℕ
  pub serves_min : ℕ
  pub serves_max : ℕ
  pub image : String
  pub cuisine : CuisineKey
  pub dietary : List DietaryTag
  pub popular : Option Bool
  pub is_new : Option Bool
  pub category : String

pub record Restaurant : Type 0 where
  pub id : String
  pub slug : String
  pub name : String
  pub tagline : String
  pub cuisine : CuisineKey
  pub rating : ℕ  -- tenths
  pub reviews : ℕ
  pub price_level : ℕ
  pub prep_time : String
  pub min_order : ℕ
  pub image : String
  pub logo_color : String
  pub neighborhood : String
  pub badges : Option (List String)
  pub featured : Option Bool

pub record CuratedBundle : Type 0 where
  pub id : String
  pub slug : String
  pub name : String
  pub tagline : String
  pub description : String
  pub serves : ℕ
  pub price_per_person : ℕ
  pub image : String
  pub theme : String
  pub dish_ids : List String
  pub tags : List String
  pub popular : Option Bool

pub record PackageOption : Type 0 where
  pub dish_id : String
  pub label : Option String

pub record PackageSection : Type 0 where
  pub name : String
  pub max_selections : ℕ
  pub options : List PackageOption

pub record CateringPackage : Type 0 where
  pub id : String
  pub slug : String
  pub name : String
  pub tagline : String
  pub description : String
  pub image : String
  pub theme : String
  pub cuisine : CuisineKey
  pub min_guests : ℕ
  pub sections : List PackageSection
  pub popular : Option Bool

pub record CartItem : Type 0 where
  pub dish_id : String
  pub qty : ℕ

-- The text of a cuisine's key.
abbrev pub cuisine_name : CuisineKey → String
cuisine_name italian = "italian"
cuisine_name mexican = "mexican"
cuisine_name asian = "asian"
cuisine_name healthy = "healthy"
cuisine_name bbq = "bbq"
cuisine_name mediterranean = "mediterranean"
cuisine_name breakfast = "breakfast"
cuisine_name indian = "indian"
