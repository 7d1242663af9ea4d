-- ===== src/Pages/Tracker.antt =====
-- The tracker of an order, customer-web/src/app/order/[id]/order-tracker.tsx: the view it keeps from the
-- live feed, and the marks of its five steps.
pub mod Page
pub mod Invoice
pub mod Placed
mod Tests
use dinner_rush.Prelude.{
  ℕ, zero, suc, ◌+◌, ◌≤◌, String, Bool, true, false, not, Option, none, some, List, [], ◌∷◌, ◌≡◌,
  if◌then◌else◌, ltb, leb, ◌==◌, ◌&&◌, ◌||◌, arith, is_some,
}
use dinner_rush.OrderApi.{OrderStatus, KitchenStatus, CartView}
use dinner_rush.Orders.Status.{status_name, flow_idx}
use dinner_rush.Api.Stream.{Frame, not_found, view}

-- What `onmessage` makes of a frame; one that is not JSON is `none`.
receive : Option Frame → CartView → CartView
receive none shown = shown
receive (some not_found) shown = shown
receive (some (view v)) shown = if is_some v.order then v else shown

receive_all : List (Option Frame) → CartView → CartView
unfolding receive
receive_all [] shown = shown
receive_all (f ∷ fs) shown = receive_all fs (receive f shown)

-- `KITCHEN_PILL`, the labels.
pub kitchen_label : KitchenStatus → String
kitchen_label KitchenStatus.pending = "Queued"
kitchen_label KitchenStatus.placed = "Order placed"
kitchen_label KitchenStatus.preparing = "Preparing"
kitchen_label KitchenStatus.ready = "Ready"
kitchen_label KitchenStatus.failed = "Failed"
kitchen_label KitchenStatus.cancelled = "Cancelled"

-- The `atOrAfter` of `STEPS`.
abbrev pub steps : List OrderStatus
steps =
    OrderStatus.placed ∷ OrderStatus.preparing ∷ OrderStatus.ready ∷ OrderStatus.out_for_delivery
    ∷ OrderStatus.delivered ∷ []

-- `Math.max(0, FLOW.indexOf(order.status))`
pub current_idx : OrderStatus → ℕ
unfolding flow_idx
current_idx status = flow_idx (status_name status)

-- `STEPS.reduce((acc, s, i) => (currentIdx >= FLOW.indexOf(s.atOrAfter) ? i : acc), 0)`
reduce_steps : ℕ → ℕ → ℕ → List OrderStatus → ℕ
unfolding flow_idx
reduce_steps current i acc [] = acc
reduce_steps current i acc (s ∷ ss) =
    reduce_steps current (suc i) (if leb (flow_idx (status_name s)) current then i else acc) ss

pub active_step : OrderStatus → ℕ
unfolding current_idx reduce_steps
active_step status = reduce_steps (current_idx status) 0 0 steps

abbrev pub is_failed : OrderStatus → Bool
is_failed OrderStatus.failed = true
is_failed OrderStatus.cancelled = true
is_failed _ = false

abbrev pub is_delivered : OrderStatus → Bool
is_delivered OrderStatus.delivered = true
is_delivered _ = false

pub is_done : OrderStatus → ℕ → Bool
unfolding active_step
is_done status i = ltb i (active_step status) || is_delivered status

pub is_active : OrderStatus → ℕ → Bool
unfolding active_step
is_active status i = i == active_step status && not (is_failed status) && not (is_delivered status)

pub is_reached : OrderStatus → ℕ → Bool
unfolding is_done is_active
is_reached status i = is_done status i || is_active status i

-- The place in the lifecycle from which a step counts as begun.
abbrev starts_at : ℕ → ℕ
starts_at zero = 0
starts_at (suc i) = i + 2

-- What the marks of the steps have to be for a status.
record AreMarks (status : OrderStatus) : Type 0 where
  reached :
      (i : ℕ)
      → i ≤ 4
      → is_reached status i ≡ (not (is_failed status) && leb (starts_at i) (current_idx status))
  done : (i : ℕ) → i ≤ 3 → is_done status i ≡ (is_reached status (suc i) || is_delivered status)
  active : (i : ℕ) → i ≤ 4 → is_active status i ≡ (is_reached status i && not (is_done status i))

-- The marks of the steps, whatever the status: a step is reached exactly when the order is neither
-- failed nor cancelled and its status is at or after that of the step; a step is done exactly when the
-- next is reached or the order is delivered; the active step is the one that is reached and not done.
status-AreMarks : (status : OrderStatus) → AreMarks status
unfolding is_reached is_done is_active active_step current_idx reduce_steps flow_idx
status-AreMarks OrderStatus.placed = record {
  reached = λ i h. ground (arith, h);
  done = λ i h. ground (arith, h);
  active = λ i h. ground (arith, h);
}
status-AreMarks OrderStatus.confirmed = record {
  reached = λ i h. ground (arith, h);
  done = λ i h. ground (arith, h);
  active = λ i h. ground (arith, h);
}
status-AreMarks OrderStatus.preparing = record {
  reached = λ i h. ground (arith, h);
  done = λ i h. ground (arith, h);
  active = λ i h. ground (arith, h);
}
status-AreMarks OrderStatus.ready = record {
  reached = λ i h. ground (arith, h);
  done = λ i h. ground (arith, h);
  active = λ i h. ground (arith, h);
}
status-AreMarks OrderStatus.out_for_delivery = record {
  reached = λ i h. ground (arith, h);
  done = λ i h. ground (arith, h);
  active = λ i h. ground (arith, h);
}
status-AreMarks OrderStatus.delivered = record {
  reached = λ i h. ground (arith, h);
  done = λ i h. ground (arith, h);
  active = λ i h. ground (arith, h);
}
status-AreMarks OrderStatus.cancelled = record {
  reached = λ i h. ground (arith, h);
  done = λ i h. ground (arith, h);
  active = λ i h. ground (arith, h);
}
status-AreMarks OrderStatus.failed = record {
  reached = λ i h. ground (arith, h);
  done = λ i h. ground (arith, h);
  active = λ i h. ground (arith, h);
}

receive-order :
    (f : Option Frame) (shown : CartView)
    → is_some shown.order ≡ true
    → is_some (receive f shown).order ≡ true
unfolding receive
receive-order none shown h = h
receive-order (some not_found) shown h = h
receive-order (some (view v)) shown h = ground (arith, h)

-- The page always shows an order: no frame, not even of a feed that no longer finds it, takes it away.
receive_all-order :
    (fs : List (Option Frame)) (shown : CartView)
    → is_some shown.order ≡ true
    → is_some (receive_all fs shown).order ≡ true
unfolding receive_all
receive_all-order [] shown h = h
receive_all-order (f ∷ fs) shown h =
    receive_all-order fs (receive f shown) (receive-order f shown h)
