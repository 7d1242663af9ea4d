-- ===== src/Orders/Status.antt =====
-- The statuses of customer-web/src/lib/dr.ts: the least advanced order of a cart, and the two tables
-- from an order's state. A state is the text that the orchestrator sends.
pub mod Laws
use dinner_rush.Prelude.{
  ℕ, zero, suc, ◌+◌, ◌-◌, String, Bool, not, Option, none, some, get_or, List, [], ◌∷◌, map, str_eq,
  if◌then◌else◌, filter, any, length, get_elem?, min, ◌==◌,
}
use mathlib.Core.Option
use dinner_rush.Prelude.Maps.{lookup}
use dinner_rush.OrderApi.{OrderStatus, KitchenStatus, DeliveryStatus}

abbrev pub status_name : OrderStatus → String
status_name OrderStatus.placed = "placed"
status_name OrderStatus.confirmed = "confirmed"
status_name OrderStatus.preparing = "preparing"
status_name OrderStatus.ready = "ready"
status_name OrderStatus.out_for_delivery = "out_for_delivery"
status_name OrderStatus.delivered = "delivered"
status_name OrderStatus.cancelled = "cancelled"
status_name OrderStatus.failed = "failed"

-- The lifecycle, least to most advanced.
abbrev pub flow : List OrderStatus
flow =
    OrderStatus.placed ∷ OrderStatus.confirmed ∷ OrderStatus.preparing ∷ OrderStatus.ready
    ∷ OrderStatus.out_for_delivery ∷ OrderStatus.delivered ∷ []

-- `Array.prototype.indexOf`, `none` for -1.
abbrev pub index_of : String → List String → Option ℕ
index_of s [] = none
index_of s (x ∷ xs) = if str_eq x s then some 0 else Option.map suc (index_of s xs)

unfoldable pub flow_idx : String → ℕ
flow_idx s = get_or (index_of s (map status_name flow)) 0

-- `active.reduce((m, s) => Math.min(m, flowIdx(s)), m)`
pub least : ℕ → List String → ℕ
unfolding flow_idx
least m [] = m
least m (s ∷ states) = least (min m (flow_idx s)) states

abbrev pub is_active : String → Bool
is_active s = not (str_eq s "cancelled")

unfoldable pub aggregate_status : List String → OrderStatus
unfolding least
aggregate_status states =
    let active = filter is_active states in
    if any (λ s. str_eq s "failed") states
    then OrderStatus.failed
    else if length active == 0
    then OrderStatus.cancelled
    else get_or (get_elem? flow (least (length flow - 1) active)) OrderStatus.delivered

abbrev kitchen_table : List (String × KitchenStatus)
kitchen_table =
    ("placed", KitchenStatus.pending)
    ∷ ("confirmed", KitchenStatus.placed)
    ∷ ("preparing", KitchenStatus.preparing)
    ∷ ("ready", KitchenStatus.ready)
    ∷ ("out_for_delivery", KitchenStatus.ready)
    ∷ ("delivered", KitchenStatus.ready)
    ∷ ("failed", KitchenStatus.failed)
    ∷ ("cancelled", KitchenStatus.cancelled)
    ∷ []

-- `KITCHEN_FROM_STATE[state] ?? "pending"`
unfoldable pub kitchen_from_state : String → KitchenStatus
kitchen_from_state state = get_or (lookup state kitchen_table) KitchenStatus.pending

abbrev delivery_table : List (String × DeliveryStatus)
delivery_table =
    ("placed", DeliveryStatus.pending)
    ∷ ("confirmed", DeliveryStatus.pending)
    ∷ ("preparing", DeliveryStatus.pending)
    ∷ ("ready", DeliveryStatus.created)
    ∷ ("out_for_delivery", DeliveryStatus.picked_up)
    ∷ ("delivered", DeliveryStatus.delivered)
    ∷ ("failed", DeliveryStatus.failed)
    ∷ ("cancelled", DeliveryStatus.cancelled)
    ∷ []

-- `DELIVERY_FROM_STATE[state] ?? "pending"`
unfoldable pub delivery_from_state : String → DeliveryStatus
delivery_from_state state = get_or (lookup state delivery_table) DeliveryStatus.pending
