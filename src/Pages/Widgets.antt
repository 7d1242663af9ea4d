-- ===== src/Pages/Widgets.antt =====
-- The pieces that several pages share, customer-web/src/components: the button that adds a dish and
-- becomes a stepper (add-to-bundle.tsx), the stepper of the guests (headcount-stepper.tsx), the meter
-- of the coverage (coverage-meter.tsx), the stack of restaurants (bundle-stack.tsx) and the dock of
-- the cart (site/floating-cart.tsx). Servings are doubled; the animations are left out.
pub mod Laws
mod Tests
use dinner_rush.Prelude.{
  ℕ, ◌+◌, ◌-◌, ◌*◌, ◌/◌, min, String, Bool, true, false, not, ◌&&◌, ◌||◌, List, [], ◌∷◌, str_eq,
  if◌then◌else◌, filter, flat_map, is_some, length, take, ltb, leb, ◌==◌,
}
use dinner_rush.Prelude.Int.{ℤ, pos, sub_ℕ}
use dinner_rush.Prelude.Maps.{lookup}
use dinner_rush.Prelude.Text.{prefix}
use dinner_rush.Types.{Dish}
use dinner_rush.Catalog.{restaurant_map}
use dinner_rush.Cart.{Cart, add, add_bundle, decrement, qty_of, bump_headcount}
use dinner_rush.Cart.Totals.{Derived}

-- `AddToBundle`, with the cart that it writes to.
pub record Adder : Type 0 where
  pub dish_id : String
  pub burst : ℕ
  pub cart : Cart

pub data Control : Type 0 where
  add_button : Control
  stepper : ℕ → Control

abbrev pub control_of : ℕ → Control
control_of qty = if qty == 0 then add_button else stepper qty

pub control : Adder → Control
control a = control_of (qty_of a.dish_id a.cart)

pub handle_add : Adder → Adder
handle_add a = record a { cart = add a.dish_id 1 a.cart; burst = a.burst + 1 }

pub remove_one : Adder → Adder
remove_one a = record a { cart = decrement a.dish_id a.cart }

-- The click of `AddBundleButton`.
click_bundle : String → Cart → Cart
click_bundle bundle_id c = add_bundle bundle_id c

-- The two buttons of `HeadcountStepper`.
pub fewer_guests : ℕ → Cart → Cart
fewer_guests step c = bump_headcount (sub_ℕ 0 step) c

pub more_guests : ℕ → Cart → Cart
more_guests step c = bump_headcount (pos step) c

-- `CoverageMeter`: the label that it shows in a whole number, the test, and the share of the bar that
-- is filled, a quotient. The test on whole numbers is that on doubles, as in Cart/Totals.
pub record Meter : Type 0 where
  pub feeds : ℕ
  pub covered : Bool
  pub filled : ℕ × ℕ

unfoldable pub meter : ℕ → ℕ → Meter
meter servings headcount = record {
  feeds = (servings + 1) / 2;
  covered = ltb 0 headcount && leb (2 * headcount) servings;
  filled = if ltb 0 headcount then (min servings (2 * headcount), 2 * headcount) else (0, 1);
}

-- `BundleStack`: the avatars, how many more there are, and whether the chip stands beside them.
pub record Stack : Type 0 where
  pub shown : List String
  pub extra : ℕ
  pub has_chip : Bool

unfoldable pub stack : List String → ℕ → Bool → Stack
unfolding restaurant_map
stack restaurant_ids max show_chip =
    let ids : List String = filter (λ id. is_some (lookup id restaurant_map)) restaurant_ids in
    record {
      shown = take max ids;
      extra = length ids - length (take max ids);
      has_chip = show_chip && ltb 1 (length ids);
    }

-- `FloatingCart`. `startsWith` is a test on the first code points.
pub hide_dock : String → Bool
hide_dock pathname =
    str_eq pathname "/cart"
    || str_eq (prefix 9 pathname) "/checkout"
    || str_eq (prefix 6 pathname) "/order"

pub shows_dock : Bool → Derived → Cart → String → Bool
unfolding hide_dock
shows_dock hydrated v c pathname =
    hydrated && ltb 0 v.item_count && not c.is_cart_open && not (hide_dock pathname)

pub thumbs : Derived → List (Dish × ℕ)
thumbs v = take 3 (flat_map (λ g. g.lines) v.grouped)
