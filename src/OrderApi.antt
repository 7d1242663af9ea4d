-- ===== src/OrderApi.antt =====
-- The JSON types of the order pipeline, customer-web/src/lib/order-api.ts, and its `placeOrder`.
-- A field of type `string | null` and an optional one are an `Option`; amounts are whole cents.
use dinner_rush.Prelude.{ℕ, String, Bool, Option, List}

pub data OrderStatus : Type 0 where
  placed confirmed preparing ready out_for_delivery delivered cancelled failed : OrderStatus

pub record OrderRow : Type 0 where
  pub id : String
  pub status : OrderStatus
  pub headcount : ℕ
  pub customer_name : Option String
  pub customer_email : Option String
  pub company_name : Option String
  pub occasion : Option String
  pub delivery_date : Option String
  pub delivery_time : Option String
  pub address1 : Option String
  pub city : Option String
  pub zip : Option String
  pub currency : String
  pub subtotal_cents : ℕ
  pub delivery_fee_cents : ℕ
  pub service_fee_cents : ℕ
  pub tax_cents : ℕ
  pub tip_cents : ℕ
  pub total_cents : ℕ
  pub failure_reason : Option String
  pub created_at : String

pub record ItemRow : Type 0 where
  pub id : String
  pub restaurant_id : String
  pub restaurant_name : Option String
  pub dish_id : String
  pub name : Option String
  pub qty : ℕ
  pub unit_price_cents : ℕ
  pub cuisine : Option String

pub data KitchenStatus : Type 0 where
  pending placed preparing ready failed cancelled : KitchenStatus

pub record FulfillmentRow : Type 0 where
  pub id : String
  pub restaurant_id : String
  pub restaurant_name : Option String
  pub provider : String
  pub provider_order_id : Option String
  pub status : KitchenStatus
  pub subtotal_cents : ℕ

pub data DeliveryStatus : Type 0 where
  pending created scheduled picked_up delivered failed cancelled : DeliveryStatus

pub record DeliveryRow : Type 0 where
  pub id : String
  pub restaurant_id : Option String
  pub provider : String
  pub provider_delivery_id : Option String
  pub status : DeliveryStatus
  pub tracking_url : Option String
  pub fee_cents : Option ℕ

pub record TransitionRow : Type 0 where
  pub id : ℕ
  pub from_state : Option String
  pub to_state : String
  pub cause : Option String
  pub attempt : ℕ
  pub created_at : String

-- The view of a token that is unreadable has no order.
pub record CartView : Type 0 where
  pub order : Option OrderRow
  pub items : List ItemRow
  pub fulfillments : List FulfillmentRow
  pub deliveries : List DeliveryRow
  pub transitions : List TransitionRow

pub record PlaceOrderItem : Type 0 where
  pub dish_id : String
  pub restaurant_id : String
  pub restaurant_name : Option String
  pub name : Option String
  pub qty : ℕ
  pub unit_price_cents : ℕ
  pub serves_min : Option ℕ
  pub serves_max : Option ℕ
  pub cuisine : Option String

pub data PayMethod : Type 0 where
  card invoice : PayMethod

pub record PlaceOrderInput : Type 0 where
  pub idempotency_key : Option String
  pub items : List PlaceOrderItem
  pub headcount : ℕ
  pub tip_cents : Option ℕ
  pub pay_method : Option PayMethod
  pub customer_name : Option String
  pub customer_email : Option String
  pub customer_phone : Option String
  pub company_name : Option String
  pub occasion : Option String
  pub delivery_date : Option String
  pub delivery_time : Option String
  pub dietary_notes : Option String
  pub address1 : Option String
  pub address2 : Option String
  pub city : Option String
  pub state : Option String
  pub zip : Option String
  pub dropoff_instructions : Option String
  pub contactless : Option Bool

pub record PlaceOrderResult : Type 0 where
  pub order_id : String
  pub status : String
  pub idempotency_key : String
  pub duplicate : Bool
  pub total_cents : ℕ

-- What a `fetch` of this program comes back with: an exception, or a status and a body. A body that
-- is not the JSON of the expected type is `unreadable`.
pub data Reply (A : Type 0) : Type 0 where
  thrown : String → Reply A
  answered : ℕ → A → Reply A
  unreadable : ℕ → Reply A

-- A result, or the message of the exception.
pub data Outcome (A : Type 0) : Type 0 where
  ok : A → Outcome A
  error : String → Outcome A

-- The body of an answer of the order route: the result, or the `error` field of a refusal, if any.
pub data Answer : Type 0 where
  accepted : PlaceOrderResult → Answer
  refused : Option String → Answer
