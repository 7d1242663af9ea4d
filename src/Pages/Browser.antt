-- ===== src/Pages/Browser.antt =====
-- The browser of the restaurants, customer-web/src/app/restaurants/restaurants-browser.tsx: its filters
-- and the order of its results. `toLowerCase` is the runtime's.
pub mod Filter
pub mod Results
mod Tests
use mathlib.Core.List.{Permᴰ}
use mathlib.Core.Option
use dinner_rush.Prelude.{
  ℕ, String, Bool, true, false, not, Option, none, some, get_or, List, [], ◌∷◌, ◌++◌, ◌≡◌, ap, sym,
  str_eq, eq_iff, if◌then◌else◌, length, filter, all, any, ltb, leb, ◌==◌, ◌&&◌, ◌||◌, arith, All,
  inl, inr, Bool-cases,
}
use dinner_rush.Prelude.Text.{◌+s◌, trim, codes}
use dinner_rush.Prelude.Sort.{sort, IsOrder, IsSorted, sort-Permᴰ, sort-IsSorted}
use dinner_rush.Types.{Restaurant, DietaryTag, Cuisine, CuisineKey, cuisine_name}
use dinner_rush.Catalog.{dishes_by_restaurant}
use dinner_rush.Catalog.Cuisines.{cuisines}
use dinner_rush.Catalog.Restaurants.{restaurants}

pub data SortKey : Type 0 where
  recommended rating prep lowest : SortKey

abbrev tag_name : DietaryTag → String
tag_name DietaryTag.vegetarian = "vegetarian"
tag_name DietaryTag.vegan = "vegan"
tag_name DietaryTag.gluten_free = "gluten-free"
tag_name DietaryTag.spicy = "spicy"
tag_name DietaryTag.dairy_free = "dairy-free"

-- The controls of the page. A cuisine is "all" or a key.
pub record Controls : Type 0 where
  pub query : String
  pub cuisine : String
  pub sort_key : SortKey
  pub diets : List DietaryTag

pub has_tag : List DietaryTag → DietaryTag → Bool
has_tag tags d = any (λ t. str_eq (tag_name t) (tag_name d)) tags

toggle_diet : DietaryTag → Controls → Controls
unfolding has_tag
toggle_diet d c = record c {
  diets =
      if has_tag c.diets d
      then filter (λ t. not (str_eq (tag_name t) (tag_name d))) c.diets
      else c.diets ++ d ∷ [];
}

reset : Controls → Controls
reset c = record { query = ""; cuisine = "all"; sort_key = SortKey.recommended; diets = [] }

has_filters : Controls → Bool
unfolding trim
has_filters c =
    not (str_eq (trim c.query) "") || not (str_eq c.cuisine "all") || ltb 0 (length c.diets)

abbrev is_prefix : List ℕ → List ℕ → Bool
is_prefix [] ys = true
is_prefix (x ∷ xs) [] = false
is_prefix (x ∷ xs) (y ∷ ys) = x == y && is_prefix xs ys

abbrev is_within : List ℕ → List ℕ → Bool
is_within xs [] = is_prefix xs []
is_within xs (y ∷ ys) = is_prefix xs (y ∷ ys) || is_within xs ys

-- `hay.includes(q)`, for texts.
pub contains_text : String → String → Bool
contains_text hay q = is_within (codes q) (codes hay)

pub cuisine_label : CuisineKey → String
cuisine_label k = get_or (Option.map (λ (c : Cuisine). c.label) (find_cuisine cuisines)) ""
  where
    find_cuisine : List Cuisine → Option Cuisine
    find_cuisine [] = none
    find_cuisine (c ∷ cs) =
        let rest = find_cuisine cs in
        if str_eq (cuisine_name c.key) (cuisine_name k) then some c else rest

-- The text that a query is looked for in.
pub searched_text : Restaurant → String
unfolding cuisine_label
searched_text r =
    r.name +s " " +s r.tagline +s " " +s cuisine_label r.cuisine +s " " +s r.neighborhood

-- The test of `restaurants.filter`.
pub is_result : (String → String) → Controls → Restaurant → Bool
unfolding contains_text searched_text has_tag trim dishes_by_restaurant
is_result to_lower c r =
    let q = to_lower (trim c.query) in
    let hay = to_lower (searched_text r) in
    (str_eq c.cuisine "all" || str_eq (cuisine_name r.cuisine) c.cuisine)
    && (str_eq q "" || contains_text hay q)
    && all (λ d. any (λ dish. has_tag dish.dietary d) (dishes_by_restaurant r.id)) c.diets

pub prep_rank : String → ℕ
prep_rank s =
    if str_eq s "Same day"
    then 0
    else if str_eq s "24h notice"
    then 1
    else if str_eq s "48h notice"
    then 2
    else 9

abbrev featured_rank : Restaurant → ℕ
featured_rank r = elim r.featured [ none ↦ 0 | some b ↦ if b then 1 else 0 ]

-- `x || y` of two differences, when it is not positive: the first decides unless it is 0.
abbrev not_more : ℕ → ℕ → ℕ → ℕ → Bool
not_more x y v w = ltb x y || (x == y && leb v w)

-- The comparator of the page says that `a` is not after `b`. A higher rating comes first.
pub not_after : SortKey → Restaurant → Restaurant → Bool
unfolding prep_rank
not_after SortKey.rating a b = not_more b.rating a.rating b.reviews a.reviews
not_after SortKey.prep a b =
    not_more (prep_rank a.prep_time) (prep_rank b.prep_time) b.rating a.rating
not_after SortKey.lowest a b = not_more a.min_order b.min_order b.rating a.rating
not_after SortKey.recommended a b = not_more (featured_rank b) (featured_rank a) b.rating a.rating

pub results : (String → String) → Controls → List Restaurant
unfolding is_result not_after
results to_lower c = sort (not_after c.sort_key) (filter (is_result to_lower c) restaurants)

has_tag-filter :
    (d e : DietaryTag) (ts : List DietaryTag)
    → has_tag (filter (λ t. not (str_eq (tag_name t) (tag_name d))) ts) e
      ≡ (not (str_eq (tag_name e) (tag_name d)) && has_tag ts e)
unfolding has_tag
has_tag-filter d e [] = ground arith
has_tag-filter d e (t ∷ ts) = ground (
  arith,
  has_tag-filter d e ts,
  eq_iff (tag_name t) (tag_name d),
  eq_iff (tag_name t) (tag_name e),
  eq_iff (tag_name e) (tag_name d),
)

has_tag-push :
    (d e : DietaryTag) (ts : List DietaryTag)
    → has_tag (ts ++ d ∷ []) e ≡ (has_tag ts e || str_eq (tag_name d) (tag_name e))
unfolding has_tag
has_tag-push d e [] = ground arith
has_tag-push d e (t ∷ ts) = ground (arith, has_tag-push d e ts)

has_tag-same :
    (d e : DietaryTag) (ts : List DietaryTag)
    → tag_name d ≡ tag_name e
    → has_tag ts d ≡ has_tag ts e
unfolding has_tag
has_tag-same d e ts h = ap (λ s. any (λ t. str_eq (tag_name t) s) ts) h

-- A press on a diet's chip turns that diet over and leaves the others.
toggle_diet_lem :
    (d e : DietaryTag) (c : Controls)
    → has_tag (toggle_diet d c).diets e
      ≡ (if str_eq (tag_name d) (tag_name e) then not (has_tag c.diets e) else has_tag c.diets e)
unfolding toggle_diet
toggle_diet_lem d e c = elim (Bool-cases (str_eq (tag_name d) (tag_name e))) [
  | inl same ↦
      let names = (eq_iff (tag_name d) (tag_name e)).0 same in
      ground (
        arith,
        same,
        has_tag-same d e c.diets names,
        has_tag-filter d e c.diets,
        has_tag-push d e c.diets,
        eq_iff (tag_name e) (tag_name d),
        sym names,
      )
  | inr other ↦ ground (
    arith,
    other,
    has_tag-filter d e c.diets,
    has_tag-push d e c.diets,
    eq_iff (tag_name e) (tag_name d),
    eq_iff (tag_name d) (tag_name e),
  )
]
