-- ===== src/Checkout/Presses.antt =====
-- The checkout's button over time, customer-web/src/app/checkout/checkout-flow.tsx: the form is typed,
-- the cart is changed, the button is pressed, and the requests are answered, in any order. Two presses
-- have a render between them, as React handles clicks, so a press finds the state of the last one.
pub mod Laws
use dinner_rush.Prelude.{
  ℕ, ◌+◌, ◌-◌, ◌≤◌, String, Bool, true, false, not, ◌&&◌, ◌||◌, Option, none, some, is_some, List,
  [], ◌∷◌, ◌++◌, length, length-append, if◌then◌else◌, ◌==◌, leb, ltb, All, All-append, ◌≡◌, refl,
  ap, sym, subst, ◌∙◌, ◌⊎◌, arith, Bool-cases, Option-cases, inl, inr,
}
use dinner_rush.Cart.{Cart}
use dinner_rush.Cart.Calls.{Call, run_call, IsCart, run_call-IsCart}
use dinner_rush.Cart.Totals.{Derived, derive}
use dinner_rush.OrderApi.{PlaceOrderInput, PlaceOrderResult, Outcome, ok, error}
use dinner_rush.Checkout.{
  FormState, or_undefined, place_input, Submitting, begin_order, settle_order,
}

-- The page, with how many of its requests are under way and how many have come back with an error.
pub record Page : Type 0 where
  pub form : FormState
  pub hydrated : Bool
  pub state : Submitting
  pub waiting : ℕ
  pub refused : ℕ

abbrev pub opened : FormState → Bool → Cart → Page
opened form hydrated cart = record {
  form = form;
  hydrated = hydrated;
  state = record { cart = cart; place_error = none; placing = false; pushed = none; posted = [] };
  waiting = 0;
  refused = 0;
}

abbrev pub item_count : Cart → ℕ
item_count c = elim (derive c.items c.headcount) [ none ↦ 0 | some v ↦ v.item_count ]

unfoldable pub is_disabled : Page → Bool
is_disabled p = p.state.placing || (p.hydrated && item_count p.state.cart == 0)

pub data Event : Type 0 where
  typed : FormState → Event
  hydrates : Event
  changed : Call → Event
  pressed : Event
  answered : Outcome PlaceOrderResult → Event

-- A press that posts has its request under way.
unfoldable pub press : String → Page → Page
unfolding begin_order
press key p =
    let s = begin_order key p.form p.state in
    record p { state = s; waiting = p.waiting + (length s.posted - length p.state.posted) }

unfoldable pub answer : Outcome PlaceOrderResult → Page → Page
unfolding settle_order
answer (ok r) p = record p { state = settle_order (ok r) p.state; waiting = p.waiting - 1 }
answer (error m) p = record p {
  state = settle_order (error m) p.state;
  waiting = p.waiting - 1;
  refused = p.refused + 1;
}

-- A disabled button takes no press, and no answer comes where no request is under way.
unfoldable pub step : String → Event → Page → Page
unfolding is_disabled press answer
step key (typed form) p = record p { form = form }
step key hydrates p = record p { hydrated = true }
step key (changed call) p = record p {
  state = record p.state { cart = run_call call p.state.cart };
}
step key pressed p = if is_disabled p then p else press key p
step key (answered r) p = if p.waiting == 0 then p else answer r p

unfoldable pub run_page : String → List Event → Page → Page
unfolding step
run_page key [] p = p
run_page key (e ∷ es) p = run_page key es (step key e p)

abbrev pub is_placed : Page → ℕ
is_placed p = if is_some p.state.pushed then 1 else 0

-- An order as the page posts it: made of a form and a well-formed cart, under the checkout's key, and
-- with a line.
pub record IsPosted (key : String) (i : PlaceOrderInput) : Type 0 where
  pub form : FormState
  pub cart : Cart
  pub well_formed : IsCart cart
  pub made : i ≡ place_input key form cart
  pub keyed : i.idempotency_key ≡ or_undefined key
  pub filled : 1 ≤ length i.items

pub record IsCheckout (key : String) (p : Page) : Type 0 where
  pub cart : IsCart p.state.cart
  pub posted : All (IsPosted key) p.state.posted
  pub counted : length p.state.posted ≡ p.refused + p.waiting + is_placed p
  pub one : p.waiting + is_placed p ≤ 1
  pub placing : p.state.placing ≡ (p.waiting + is_placed p == 1)
