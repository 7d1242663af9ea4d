-- ===== src/Pages/Widgets/Tests.antt =====
-- The shared pieces on the first visit's cart and on an empty one.
use dinner_rush.Prelude.{false, true, [], ◌∷◌, ◌≡◌, refl, length}
use dinner_rush.Prelude.Text.{prefix}
use dinner_rush.Catalog.{dish_map, bundle_map, restaurant_map}
use dinner_rush.Cart.{Cart, add, add_bundle, qty_of, set_qty, decrement, bump_headcount}
use dinner_rush.Cart.Items.{item, add_item, add_all, qty_in, set_item, remove_item}
use dinner_rush.Cart.Totals.{Derived}
use dinner_rush.Cart.Totals.Laws.{derive_total}
use dinner_rush.Pages.Widgets.{
  add_button, stepper, control, handle_add, remove_one, click_bundle, fewer_guests, more_guests,
  meter, stack, hide_dock, shows_dock,
}

abbrev full : Cart
full = record {
  items = item "nonna-1" 2 ∷ item "fuego-1" 1 ∷ [];
  headcount = 498;
  is_cart_open = false;
  just_added = 0;
}

abbrev derived : Derived
derived = (derive_total full.items 12).0

adder : control (handle_add (record { dish_id = "nonna-1"; burst = 0; cart = full })) ≡ stepper 3
unfolding control handle_add add qty_of add_item qty_in dish_map
adder = refl

last_one :
    control (remove_one (record { dish_id = "fuego-1"; burst = 0; cart = full })) ≡ add_button
unfolding control remove_one decrement set_qty qty_of qty_in set_item remove_item
last_one = refl

bundle_size : length (click_bundle "b-world" full).items ≡ 5
unfolding click_bundle add_bundle bundle_map add_all
bundle_size = refl

guests : ((more_guests 5 full).headcount ≡ 500) × ((fewer_guests 5 full).headcount ≡ 493)
unfolding more_guests fewer_guests bump_headcount
guests = (refl, refl)

half_full : (meter 12 12).filled ≡ (12, 24)
unfolding meter
half_full = refl

two_of_three : (stack ("nonna" ∷ "nobody" ∷ "fuego" ∷ "verde" ∷ []) 2 true).extra ≡ 1
unfolding stack restaurant_map
two_of_three = refl

docks :
    (hide_dock "/checkout/review" ≡ true)
    × (hide_dock "/cart/x" ≡ false)
    × (shows_dock false derived full "/" ≡ false)
unfolding hide_dock shows_dock prefix
docks = (refl, refl, refl)
