-- ===== src/Pages/Confirmation.antt =====
-- The page of a placed order, customer-web/src/app/order/page.tsx: what it shows of the cart. Amounts
-- are left as whole dollars, which `money` prints; the styles, the icons and the animation are left
-- out. Servings are doubled, as in Cart/Totals.
pub mod Laws
mod Tests
use mathlib.Core.Option
use dinner_rush.Prelude.{
  ℕ, zero, suc, ◌+◌, ◌-◌, ◌*◌, ◌/◌, ◌%◌, String, Bool, true, false, not, ◌||◌, Option, none, some,
  List, [], ◌∷◌, map, str_eq, if◌then◌else◌, flat_map, get_elem?, get_or, length, take, ltb, ◌==◌,
}
use dinner_rush.Prelude.Maps.{lookup}
use dinner_rush.Prelude.Text.{◌+s◌, decimal, prefix}
use dinner_rush.Types.{Cuisine, Dish, Restaurant, CuisineKey, cuisine_name}
use dinner_rush.Catalog.{cuisine_map}
use dinner_rush.Cart.Totals.{GroupedRestaurant, Derived}
use dinner_rush.Pages.Display.{counted, cuisine_badge, Amount, free, dollars, Row, delivery_amount}
use dinner_rush.Pages.Widgets.{Meter, meter, Stack, stack}

confetti_colors : List String
confetti_colors = "#ffb020" ∷ "#e8431f" ∷ "#d6266e" ∷ "#6d28c9" ∷ "#157a4e" ∷ "#ff7a33" ∷ []

data Shape : Type 0 where
  rect circle : Shape

piece_color : ℕ → Option String
unfolding confetti_colors
piece_color i = get_elem? confetti_colors (i % length confetti_colors)

piece_shape : ℕ → Shape
piece_shape i = if i % 3 == 0 then circle else rect

-- The base of the order's number.
pub order_base : ℕ → ℕ → ℕ
order_base item_count restaurant_count = 4800 + (item_count * 17 + restaurant_count * 3) % 199

pub order_no : ℕ → ℕ → String
unfolding order_base decimal
order_no item_count restaurant_count =
    "#CB-2026-" +s decimal (order_base item_count restaurant_count)

pub record Fact : Type 0 where
  pub label : String
  pub value : String

pub facts : Derived → ℕ → List Fact
unfolding order_no decimal
facts v headcount =
    record { label = "Order number"; value = order_no v.item_count v.restaurant_count }
    ∷ record { label = "Estimated delivery"; value = "12:15 – 12:30 PM" }
    ∷ record { label = "Feeding"; value = decimal headcount +s " guests" }
    ∷ []

record Step : Type 0 where
  key : String
  title : String
  sub : String

abbrev steps : List Step
steps =
    record { key = "confirmed"; title = "Order confirmed"; sub = "We sent it to all your kitchens" }
    ∷ record {
      key = "preparing";
      title = "Kitchens preparing";
      sub = "Chefs are firing up your trays";
    }
    ∷ record { key = "delivery"; title = "Out for delivery"; sub = "One driver, every restaurant" }
    ∷ record { key = "arriving"; title = "Arriving ~12:30"; sub = "Set up & ready to serve" }
    ∷ []

abbrev active_index : ℕ
active_index = 1

-- An entry of the timeline: the check of a step that is done, the badge of the one that is active, and
-- the line to the next step, filled or not, which the last has not.
record Mark : Type 0 where
  title : String
  sub : String
  done : Bool
  active : Bool
  reached : Bool
  connector : Option Bool

abbrev mark_from : ℕ → List Step → List Mark
mark_from i [] = []
mark_from i (s ∷ ss) =
    record {
      title = s.title;
      sub = s.sub;
      done = ltb i active_index;
      active = i == active_index;
      reached = ltb i active_index || i == active_index;
      connector = if i == length steps - 1 then none else some (ltb i active_index);
    }
    ∷ mark_from (i + 1) ss

timeline : List Mark
timeline = mark_from 0 steps

-- A row of the kitchens: the first is packed, the others prepare.
pub record Kitchen : Type 0 where
  pub color : String
  pub initial : String
  pub name : String
  pub dishes : ℕ
  pub feeds : ℕ
  pub packed : Bool

abbrev pub kitchens_from : ℕ → List GroupedRestaurant → List Kitchen
kitchens_from i [] = []
kitchens_from i (g ∷ gs) =
    record {
      color = g.restaurant.logo_color;
      initial = prefix 1 g.restaurant.name;
      name = g.restaurant.name;
      dishes = length g.lines;
      feeds = (g.servings + 1) / 2;
      packed = i == 0;
    }
    ∷ kitchens_from (i + 1) gs

-- A dish in the summary; the quantity stands there when there is more than one.
pub record LineView : Type 0 where
  pub name : String
  pub serves : String
  pub times : Option ℕ
  pub amount : ℕ

abbrev pub line_view : Dish × ℕ → LineView
line_view (d, qty) = record {
  name = d.name;
  serves = "Serves " +s decimal d.serves_min +s "–" +s decimal d.serves_max;
  times = if ltb 1 qty then some qty else none;
  amount = d.price * qty;
}

pub record Section : Type 0 where
  pub color : String
  pub initial : String
  pub name : String
  pub neighborhood : String
  pub cuisine : Option String
  pub lines : List LineView

pub section_view : GroupedRestaurant → Section
unfolding cuisine_badge
section_view g = record {
  color = g.restaurant.logo_color;
  initial = prefix 1 g.restaurant.name;
  name = g.restaurant.name;
  neighborhood = g.restaurant.neighborhood;
  cuisine = cuisine_badge g.restaurant.cuisine;
  lines = map line_view g.lines;
}

pub all_thumbs : Derived → List (Dish × ℕ)
all_thumbs v = flat_map (λ g. g.lines) v.grouped

pub rows : Derived → List Row
rows v =
    record { label = "Subtotal"; value = dollars v.subtotal }
    ∷ record { label = "Delivery"; value = delivery_amount v.delivery_fee }
    ∷ record { label = "Service"; value = dollars v.service_fee }
    ∷ record { label = "Est. tax"; value = dollars v.tax }
    ∷ []

-- What the page shows of a cart with something in it.
pub record Invoice : Type 0 where
  pub cooking : String
  pub facts : List Fact
  pub spots : String
  pub kitchens : List Kitchen
  pub avatars : Stack
  pub trays : String
  pub sections : List Section
  pub coverage : Meter
  pub sized : String
  pub thumbs : List Dish
  pub more : ℕ
  pub rows : List Row
  pub paid : ℕ
  pub per_guest : ℕ × ℕ  -- a quotient

pub invoice : Derived → ℕ → Invoice
unfolding facts section_view all_thumbs rows meter stack decimal
invoice v headcount =
    let all : List (Dish × ℕ) = all_thumbs v in
    record {
      cooking = counted v.restaurant_count "kitchen is" "kitchens are";
      facts = facts v headcount;
      spots = counted v.restaurant_count "spot" "spots";
      kitchens = kitchens_from 0 v.grouped;
      avatars = stack (map (λ g. g.restaurant.id) v.grouped) 4 true;
      trays = counted v.item_count "tray" "trays";
      sections = map section_view v.grouped;
      coverage = meter v.total_servings headcount;
      sized = "Sized to feed all " +s decimal headcount +s " guests";
      thumbs = map (λ l. l.0) (take 5 all);
      more = if ltb 5 (length all) then length all - 5 else 0;
      rows = rows v;
      paid = v.total;
      per_guest = v.per_person;
    }

-- The page: a skeleton until the cart is hydrated, a hint when it is empty, and the order.
pub data Screen : Type 0 where
  loading : Screen
  no_active_order : Screen
  placed : Invoice → Screen

pub screen : Bool → Derived → ℕ → Screen
unfolding invoice
screen hydrated v headcount =
    if not hydrated
    then loading
    else if v.item_count == 0
    then no_active_order
    else placed (invoice v headcount)

record NextStep : Type 0 where
  color : String
  title : String
  body : String

next_steps : List NextStep
next_steps =
    record {
      color = "#c7341a";
      title = "Live updates";
      body = "We'll text you the moment your driver is loaded up and rolling toward you.";
    }
    ∷ record {
      color = "#6d28c9";
      title = "One coordinated drop";
      body = "Every kitchen's trays arrive together — labeled, set up, and ready to serve.";
    }
    ∷ record {
      color = "#157a4e";
      title = "Reorder in a tap";
      body = "Loved it? Re-run this exact bundle for next week's lunch in seconds.";
    }
    ∷ []
