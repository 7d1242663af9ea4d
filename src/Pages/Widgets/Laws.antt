-- ===== src/Pages/Widgets/Laws.antt =====
-- The shared pieces of the pages agree with the cart that they show.
use mathlib.Core.Option.{some-injective}
use dinner_rush.Prelude.{
  ℕ, Bool, ◌+◌, ◌-◌, ◌≤◌, String, some, List, eq_iff, ◌≡◌, refl, ap, ◌∙◌, arith, Option-cases, inl,
  inr, is_some, filter, length, length-take,
}
use dinner_rush.Prelude.Maps.{lookup}
use dinner_rush.Types.{Dish, CartItem}
use dinner_rush.Catalog.{dish_map, restaurant_map}
use dinner_rush.Cart.{qty_of}
use dinner_rush.Cart.Calls.{Call, run_call}
use dinner_rush.Cart.Quantities.{quantity_after, qty_of-run_call}
use dinner_rush.Cart.Totals.{Derived, derive, summarise, tally, valid_items, no_tally}
use dinner_rush.Pages.Widgets.{
  Adder, control_of, stepper, control, handle_add, remove_one, meter, stack,
}

qty_of-handle_add :
    (a : Adder) (d : Dish)
    → lookup a.dish_id dish_map ≡ some d
    → qty_of a.dish_id (handle_add a).cart ≡ qty_of a.dish_id a.cart + 1
unfolding handle_add run_call quantity_after
qty_of-handle_add a d on =
    qty_of-run_call (Call.add a.dish_id 0) a.dish_id a.cart
    ∙ ground (arith, on, eq_iff a.dish_id a.dish_id)

qty_of-remove_one : (a : Adder) → qty_of a.dish_id (remove_one a).cart ≡ qty_of a.dish_id a.cart - 1
unfolding remove_one run_call quantity_after
qty_of-remove_one a =
    qty_of-run_call (Call.decrement a.dish_id) a.dish_id a.cart
    ∙ ground (arith, eq_iff a.dish_id a.dish_id)

control_of-suc : (n : ℕ) → control_of (n + 1) ≡ stepper (n + 1)
control_of-suc n = ground arith

-- On a dish of the menu the plus leads to a stepper with one more than the cart held, and the minus
-- then shows what stood there before: the button, if the dish was not in the cart.
pub remove_one-handle_add :
    (a : Adder) (d : Dish)
    → lookup a.dish_id dish_map ≡ some d
    → (control (handle_add a) ≡ stepper (qty_of a.dish_id a.cart + 1))
      × (control (remove_one (handle_add a)) ≡ control a)
unfolding control handle_add remove_one
remove_one-handle_add a d on =
    let more = qty_of-handle_add a d on in
    let back = qty_of-remove_one (handle_add a) in
    (
      ap control_of more ∙ control_of-suc (qty_of a.dish_id a.cart),
      ap control_of (omega (arith, more, back)),
    )

-- The meter, given the servings and the guests of a cart, turns green exactly when the cart says that
-- it is covered, and it never fills more than the bar.
pub meter-covered :
    (items : List CartItem) (headcount : ℕ) (v : Derived)
    → derive items headcount ≡ some v
    → ((meter v.total_servings headcount).covered ≡ v.covered)
      × ((meter v.total_servings headcount).filled.0 ≤ (meter v.total_servings headcount).filled.1)
unfolding meter derive summarise
meter-covered items headcount v e = elim (Option-cases (tally (valid_items items) no_tally)) [
  | inl failed ↦ absurd (cc (rw (failed, derive) at e))
  | inr (t, run) ↦ rw (← some-injective _ _ (rw (run, derive) at e)) (refl, ground arith)
]

-- Of the restaurants in the catalog the stack shows the first ones, up to the maximum, and counts the
-- others: with these, all of them are told.
pub stack-IsCount :
    (ids : List String) (max : ℕ) (chip : Bool)
    → (length (stack ids max chip).shown ≤ max)
      × (length (stack ids max chip).shown + (stack ids max chip).extra
          ≡ length (filter (λ id. is_some (lookup id restaurant_map)) ids))
unfolding stack
stack-IsCount ids max chip =
    let l = length-take max (filter (λ id. is_some (lookup id restaurant_map)) ids) in
    (omega (arith, l), omega (arith, l))
