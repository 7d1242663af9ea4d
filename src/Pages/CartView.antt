-- ===== src/Pages/CartView.antt =====
-- The page of the cart, customer-web/src/app/cart/cart-view.tsx, but for its suggestions, which are in
-- Pages/Suggestions. Amounts are left as whole dollars and servings are doubled; the styles, the icons
-- and the animation are left out.
pub mod Laws
mod Tests
use dinner_rush.Prelude.{
  ℕ, ◌+◌, ◌-◌, ◌*◌, ◌/◌, String, Bool, true, false, not, Option, none, some, List, [], ◌∷◌, map,
  if◌then◌else◌, filter, get_or, length, take, leb, ◌==◌,
}
use dinner_rush.Prelude.Text.{◌+s◌, decimal, prefix}
use dinner_rush.Types.{Dish, DietaryTag, CuratedBundle}
use dinner_rush.Catalog.Bundles.{bundles}
use dinner_rush.Cart.{Cart, increment, decrement, remove}
use dinner_rush.Cart.Totals.{GroupedRestaurant, Derived}
use dinner_rush.Pages.Display.{counted, cuisine_badge, Amount, dollars, Row, delivery_amount}
use dinner_rush.Pages.Suggestions.{missing, suggestions}
use dinner_rush.Pages.Widgets.{Meter, meter}

-- `CoverageMessage`
pub data Advice : Type 0 where
  everyone_covered : Advice
  add_about : ℕ → Advice

pub coverage_message : Bool → ℕ → Advice
coverage_message covered short = if covered then everyone_covered else add_about short

-- The recap under the summary, which tells the servings as well.
pub record Recap : Type 0 where
  pub feeds : ℕ
  pub guests : ℕ
  pub advice : Advice

-- `CartLine`: what it shows, and its three buttons.
pub record LineCard : Type 0 where
  pub dish_id : String
  pub name : String
  pub serves : String
  pub price : ℕ
  pub tags : List DietaryTag
  pub qty : ℕ
  pub amount : ℕ

abbrev pub line_card : Dish × ℕ → LineCard
line_card (d, qty) = record {
  dish_id = d.id;
  name = d.name;
  serves = "Serves " +s decimal d.serves_min +s "–" +s decimal d.serves_max;
  price = d.price;
  tags = take 2 d.dietary;
  qty = qty;
  amount = d.price * qty;
}

data Button : Type 0 where
  minus plus cross : Button

press : Button → LineCard → Cart → Cart
press minus l c = decrement l.dish_id c
press plus l c = increment l.dish_id c
press cross l c = remove l.dish_id c

pub record GroupCard : Type 0 where
  pub color : String
  pub initial : String
  pub name : String
  pub neighborhood : String
  pub cuisine : Option String
  pub menu_link : String
  pub lines : List LineCard
  pub feeds : ℕ
  pub subtotal : ℕ

pub group_card : GroupedRestaurant → GroupCard
unfolding cuisine_badge
group_card g = record {
  color = g.restaurant.logo_color;
  initial = prefix 1 g.restaurant.name;
  name = g.restaurant.name;
  neighborhood = g.restaurant.neighborhood;
  cuisine = cuisine_badge g.restaurant.cuisine;
  menu_link = "/restaurants/" +s g.restaurant.slug;
  lines = map line_card g.lines;
  feeds = (g.servings + 1) / 2;
  subtotal = g.subtotal;
}

pub summary_rows : Derived → List Row
summary_rows v =
    record { label = "Subtotal"; value = dollars v.subtotal }
    ∷ record { label = "Delivery"; value = delivery_amount v.delivery_fee }
    ∷ record { label = "Service fee"; value = dollars v.service_fee }
    ∷ record { label = "Est. tax"; value = dollars v.tax }
    ∷ []

-- `FilledBundle`
pub record Filled : Type 0 where
  pub items : String
  pub restaurants : String
  pub guests : ℕ
  pub coverage : Meter
  pub message : Advice
  pub groups : List GroupCard
  pub suggested : List Dish
  pub rows : List Row
  pub total : ℕ
  pub per_guest : ℕ × ℕ  -- a quotient
  pub recap : Recap

pub filled : Derived → ℕ → Filled
unfolding coverage_message missing meter group_card summary_rows suggestions
filled v headcount =
    let advice : Advice = coverage_message v.covered (missing headcount v.total_servings) in
    record {
      items = counted v.item_count "item" "items";
      restaurants = counted v.restaurant_count "restaurant" "restaurants";
      guests = headcount;
      coverage = meter v.total_servings headcount;
      message = advice;
      groups = map group_card v.grouped;
      suggested = suggestions v.restaurant_ids;
      rows = summary_rows v;
      total = v.total;
      per_guest = v.per_person;
      recap = record { feeds = (v.total_servings + 1) / 2; guests = headcount; advice = advice };
    }

-- The picks of `EmptyBundle`.
pub empty_picks : List CuratedBundle
empty_picks =
    let suggested : List CuratedBundle = take 3 (filter (λ b. get_or b.popular false) bundles) in
    if leb 3 (length suggested) then suggested else take 3 bundles

-- `CartView`
pub data View : Type 0 where
  skeleton : View
  empty : List CuratedBundle → View
  bundle : Filled → View

pub view : Bool → Derived → ℕ → View
unfolding empty_picks filled
view hydrated v headcount =
    if not hydrated
    then skeleton
    else if v.item_count == 0
    then empty empty_picks
    else bundle (filled v headcount)
