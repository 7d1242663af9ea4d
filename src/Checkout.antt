-- ===== src/Checkout.antt =====
-- The checkout, customer-web/src/app/checkout/checkout-flow.tsx: its form, and the order that it
-- submits. The text fields are in Checkout/Fields, the steps and the default date in Checkout/Wizard,
-- the presses of its button in Checkout/Presses.
pub mod Fields
pub mod Wizard
pub mod Submission
pub mod Charged
pub mod Presses
mod Tests
use mathlib.Core.Option
use dinner_rush.Prelude.{
  ℕ, zero, suc, ◌+◌, ◌*◌, String, Bool, true, false, Option, none, some, List, [], ◌∷◌, ◌++◌, map,
  filter, str_eq, if◌then◌else◌, length, ◌==◌, is_some,
}
use dinner_rush.Prelude.Text.{◌+s◌}
use dinner_rush.Prelude.Maps.{lookup}
use dinner_rush.Types.{CartItem, Dish, Restaurant, cuisine_name}
use dinner_rush.Catalog.{dish_map, restaurant_map}
use dinner_rush.Cart
use dinner_rush.Cart.{Cart}
use dinner_rush.Cart.Totals.{valid_items}
use dinner_rush.OrderApi.{
  PlaceOrderItem, PlaceOrderInput, PlaceOrderResult, PayMethod, Outcome, ok, error,
}

pub record FormState : Type 0 where
  pub occasion : String
  pub date : String
  pub time : String
  pub dietary_notes : String
  pub company : String
  pub contact : String
  pub email : String
  pub phone : String
  pub address1 : String
  pub address2 : String
  pub city : String
  pub zip : String
  pub dropoff : String
  pub contactless : Bool
  pub pay_method : PayMethod
  pub card_number : String
  pub expiry : String
  pub cvc : String
  pub card_name : String
  pub billing_zip : String

abbrev pub initial : FormState
initial = record {
  occasion = "Team lunch";
  date = "";
  time = "12:00 PM";
  dietary_notes = "";
  company = "";
  contact = "";
  email = "";
  phone = "";
  address1 = "";
  address2 = "";
  city = "";
  zip = "";
  dropoff = "";
  contactless = true;
  pay_method = PayMethod.card;
  card_number = "";
  expiry = "";
  cvc = "";
  card_name = "";
  billing_zip = "";
}

-- `text || undefined`
abbrev pub or_undefined : String → Option String
or_undefined s = if str_eq s "" then none else some s

pub order_item : Dish → ℕ → PlaceOrderItem
order_item dish qty = record {
  dish_id = dish.id;
  restaurant_id = dish.restaurant_id;
  restaurant_name =
      Option.map (λ (r : Restaurant). r.name) (lookup dish.restaurant_id restaurant_map);
  name = some dish.name;
  qty = qty;
  unit_price_cents = dish.price * 100;
  serves_min = some dish.serves_min;
  serves_max = some dish.serves_max;
  cuisine = some (cuisine_name dish.cuisine);
}

-- The lines of the cart whose dish is on the menu, as lines of an order.
pub order_items : List CartItem → List PlaceOrderItem
unfolding order_item
order_items [] = []
order_items (i ∷ rest) = elim (lookup i.dish_id dish_map) [
  | none ↦ order_items rest
  | some dish ↦ order_item dish i.qty ∷ order_items rest
]

unfoldable pub place_input : String → FormState → Cart → PlaceOrderInput
unfolding order_items
place_input idem_key form cart = record {
  idempotency_key = or_undefined idem_key;
  items = order_items cart.items;
  headcount = cart.headcount;
  tip_cents = none;
  pay_method = some form.pay_method;
  customer_name = or_undefined form.contact;
  customer_email = or_undefined form.email;
  customer_phone = or_undefined form.phone;
  company_name = or_undefined form.company;
  occasion = some form.occasion;
  delivery_date = or_undefined form.date;
  delivery_time = or_undefined form.time;
  dietary_notes = or_undefined form.dietary_notes;
  address1 = or_undefined form.address1;
  address2 = or_undefined form.address2;
  city = or_undefined form.city;
  state = none;
  zip = or_undefined form.zip;
  dropoff_instructions = or_undefined form.dropoff;
  contactless = some form.contactless;
}

-- What submitting sets: the cart, the state of the page and the page that is gone to; and the orders
-- that it has posted, of which the page keeps no state.
pub record Submitting : Type 0 where
  pub cart : Cart
  pub place_error : Option String
  pub placing : Bool
  pub pushed : Option String
  pub posted : List PlaceOrderInput

-- `submitOrder` up to its `await`: the order is posted, unless it is empty.
pub begin_order : String → FormState → Submitting → Submitting
unfolding place_input
begin_order idem_key form s =
    let input = place_input idem_key form s.cart in
    if length input.items == 0
    then record s { place_error = some "Your bundle is empty."; placing = false }
    else record s { place_error = none; placing = true; posted = s.posted ++ input ∷ [] }

-- The rest of it, with what `placeOrder` comes back with.
pub settle_order : Outcome PlaceOrderResult → Submitting → Submitting
unfolding Cart.clear
settle_order (ok result) s = record s {
  cart = Cart.clear s.cart;
  pushed = some ("/order/" +s result.order_id);
}
settle_order (error message) s = record s { place_error = some message; placing = false }
