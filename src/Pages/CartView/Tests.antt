-- ===== src/Pages/CartView/Tests.antt =====
-- The page of a cart with two kitchens, at twelve and at forty guests.
use dinner_rush.Prelude.{false, some, List, [], ◌∷◌, ◌≡◌, refl, map, arith}
use dinner_rush.Types.{CartItem}
use dinner_rush.Cart.{Cart, qty_of, decrement, set_qty, increment, add, remove}
use dinner_rush.Catalog.{dish_map}
use dinner_rush.Cart.Items.{item, qty_in, set_item, remove_item, add_item}
use dinner_rush.Cart.Totals.{Derived, derive}
use dinner_rush.Cart.Totals.Laws.{derive_total}
use dinner_rush.Pages.CartView.{
  add_about, coverage_message, press, minus, plus, cross, LineCard, skeleton, empty_picks, view,
  filled,
}
use dinner_rush.Pages.CartView.Laws.{IsFilled, filled-IsFilled}

abbrev two_kitchens : List CartItem
two_kitchens = item "nonna-1" 2 ∷ item "fuego-1" 1 ∷ []

abbrev derived : Derived
derived = (derive_total two_kitchens 40).0

derived_found : derive two_kitchens 40 ≡ some derived
derived_found = (derive_total two_kitchens 40).1

first_paint : view false derived 40 ≡ skeleton
unfolding view
first_paint = refl

some_short : coverage_message false 7 ≡ add_about 7
unfolding coverage_message
some_short = refl

picks : map (λ b. b.id) empty_picks ≡ "b-world" ∷ "b-fiesta" ∷ "b-pasta" ∷ []
unfolding empty_picks
picks = refl

filled-IsFilled_example : IsFilled derived 40 (filled derived 40)
filled-IsFilled_example = filled-IsFilled two_kitchens 40 derived derived_found (omega arith)

abbrev fresh : Cart
fresh = record { items = two_kitchens; headcount = 40; is_cart_open = false; just_added = 0 }

abbrev pasta : LineCard
pasta = record {
  dish_id = "nonna-1";
  name = "";
  serves = "";
  price = 0;
  tags = [];
  qty = 2;
  amount = 0;
}

buttons :
    (qty_of "nonna-1" (press minus pasta fresh) ≡ 1)
    × (qty_of "nonna-1" (press plus pasta fresh) ≡ 3)
    × (qty_of "nonna-1" (press cross pasta fresh) ≡ 0)
unfolding press qty_of qty_in decrement set_qty set_item remove_item increment add add_item remove
    dish_map
buttons = (refl, refl, refl)
