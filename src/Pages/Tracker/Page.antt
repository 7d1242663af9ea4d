-- ===== src/Pages/Tracker/Page.antt =====
-- What the tracker shows of a view, customer-web/src/app/order/[id]/order-tracker.tsx. Amounts are
-- left in cents, and statuses as they are, where `pretty` prints them; icons and styles are left out.
use dinner_rush.Prelude.{
  ℕ, ◌+◌, ◌-◌, String, Bool, not, Option, none, some, get_or, List, [], ◌∷◌, map, str_eq,
  if◌then◌else◌, length, ltb, ◌==◌,
}
use dinner_rush.Prelude.Maps.{lookup}
use dinner_rush.Prelude.Text.{◌+s◌, decimal, prefix, suffix}
use dinner_rush.Catalog.{restaurant_map}
use dinner_rush.OrderApi.{
  OrderStatus, OrderRow, FulfillmentRow, DeliveryRow, DeliveryStatus, CartView,
}
use dinner_rush.Pages.Display.{counted}
use dinner_rush.Pages.Tracker.{
  kitchen_label, is_failed, is_delivered, is_done, is_active, is_reached,
}

record StepText : Type 0 where
  title : String
  sub : String

abbrev step_texts : List StepText
step_texts =
    record { title = "Order received & paid"; sub = "Payment authorized" }
    ∷ record { title = "Kitchens preparing"; sub = "Sent to every restaurant" }
    ∷ record { title = "Ready for pickup"; sub = "Trays packed & labeled" }
    ∷ record { title = "Out for delivery"; sub = "Couriers dispatched" }
    ∷ record { title = "Delivered"; sub = "Enjoy the feast" }
    ∷ []

-- The line to the next step, filled or not, is missing at the last.
pub record StepMark : Type 0 where
  pub title : String
  pub sub : String
  pub done : Bool
  pub active : Bool
  pub reached : Bool
  pub connector : Option Bool

abbrev step_marks : OrderStatus → ℕ → List StepText → List StepMark
step_marks status i [] = []
step_marks status i (s ∷ ss) =
    record {
      title = s.title;
      sub = s.sub;
      done = is_done status i;
      active = is_active status i;
      reached = is_reached status i;
      connector = if i == length step_texts - 1 then none else some (is_done status i);
    }
    ∷ step_marks status (i + 1) ss

headline : OrderStatus → String
headline status =
    if is_failed status
    then "We hit a snag"
    else if is_delivered status
    then "Delivered — enjoy!"
    else "Your bundle is in motion"

subline : OrderRow → ℕ → String
unfolding decimal
subline order restaurant_count =
    if is_failed order.status
    then get_or order.failure_reason "This order could not be completed."
    else counted restaurant_count "kitchen" "kitchens"
      +s " · feeding "
      +s decimal order.headcount
      +s " · one coordinated delivery."

-- A kitchen's row; an empty provider's id counts as none.
pub record KitchenRow : Type 0 where
  pub color : String
  pub initial : String
  pub name : String
  pub ticket : String
  pub pill : String

abbrev ticket_of : Option String → String
ticket_of none = "awaiting POS"
ticket_of (some id) = if str_eq id "" then "awaiting POS" else "#" +s suffix 8 id

pub kitchen_row : FulfillmentRow → KitchenRow
unfolding restaurant_map kitchen_label
kitchen_row f =
    let name = get_or f.restaurant_name f.restaurant_id in
    record {
      color = elim (lookup f.restaurant_id restaurant_map) [
        | none ↦ "#e8431f"
        | some r ↦ r.logo_color
      ];
      initial = prefix 1 name;
      name = name;
      ticket = ticket_of f.provider_order_id;
      pill = kitchen_label f.status;
    }

pub record CourierRow : Type 0 where
  pub name : String
  pub status : DeliveryStatus
  pub track : Option String
  pub fee : Option ℕ

abbrev link_of : Option String → Option String
link_of none = none
link_of (some url) = if str_eq url "" then none else some url

courier_row : DeliveryRow → CourierRow
unfolding restaurant_map
courier_row d = record {
  name = elim (lookup (get_or d.restaurant_id "") restaurant_map) [
    | none ↦ "Pickup"
    | some r ↦ r.name
  ];
  status = d.status;
  track = link_of d.tracking_url;
  fee = d.fee_cents;
}

-- An amount of the invoice in cents; nothing for the delivery is "FREE".
pub data Price : Type 0 where
  free : Price
  cents : ℕ → Price

pub record PriceRow : Type 0 where
  pub label : String
  pub price : Price

abbrev tip_row : ℕ → List PriceRow
tip_row tip = if ltb 0 tip then record { label = "Tip"; price = cents tip } ∷ [] else []

unfoldable pub invoice_rows : OrderRow → List PriceRow
invoice_rows o =
    record { label = "Subtotal"; price = cents o.subtotal_cents }
    ∷ record {
      label = "Delivery";
      price = if o.delivery_fee_cents == 0 then free else cents o.delivery_fee_cents;
    }
    ∷ record { label = "Service"; price = cents o.service_fee_cents }
    ∷ record { label = "Tax"; price = cents o.tax_cents }
    ∷ tip_row o.tip_cents

pub record Page : Type 0 where
  pub number : String
  pub headline : String
  pub subline : String
  pub status : OrderStatus
  pub guests : ℕ
  pub is_live : Bool
  pub marks : List StepMark
  pub kitchens : List KitchenRow
  pub couriers : List CourierRow
  pub rows : List PriceRow
  pub total : ℕ

-- The page of a view that has its order. The number is put in capitals by the runtime.
unfoldable pub tracker_page : CartView → OrderRow → Page
unfolding headline subline kitchen_row courier_row invoice_rows
tracker_page v o = record {
  number = prefix 8 o.id;
  headline = headline o.status;
  subline = subline o (length v.fulfillments);
  status = o.status;
  guests = o.headcount;
  is_live = not (is_failed o.status);
  marks = step_marks o.status 0 step_texts;
  kitchens = map kitchen_row v.fulfillments;
  couriers = map courier_row v.deliveries;
  rows = invoice_rows o;
  total = o.total_cents;
}
