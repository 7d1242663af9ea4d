-- ===== src/Api/Stream.antt =====
-- The live feed of an order, customer-web/src/app/api/orders/[id]/stream/route.ts: the variables of
-- `start`, and what the ticks, the client's abort and the interval do to them.
pub mod Laws
mod Tests
use dinner_rush.Prelude.{
  ℕ, ◌-◌, Bool, true, false, Option, none, some, List, [], ◌∷◌, ◌++◌, if◌then◌else◌, ◌==◌, ltb,
}
use dinner_rush.OrderApi.{CartView, OrderRow, OrderStatus}

pub data Frame : Type 0 where
  not_found : Frame
  view : CartView → Frame

-- The `const timer` is declared after the first tick: before that, reading it throws.
pub data Timer : Type 0 where
  uninitialized running cleared : Timer

pub record Feed : Type 0 where
  pub closed : Bool
  pub timer : Timer
  pub ended : Bool  -- `controller.close()` was called
  pub terminal_seen_at : ℕ
  pub frames : List Frame

abbrev pub opened : Feed
opened = record {
  closed = false;
  timer = Timer.uninitialized;
  ended = false;
  terminal_seen_at = 0;
  frames = [];
}

pub send : Frame → Feed → Feed
send frame s = if s.closed then s else record s { frames = s.frames ++ frame ∷ [] }

-- `close`; where `timer` is not initialized `clearInterval(timer)` throws, and its callers, the `try`
-- of a tick and the dispatch of an event, go on.
pub close : Feed → Feed
close s = if s.closed then s else elim s.timer [
  | Timer.uninitialized ↦ record s { closed = true }
  | Timer.running ↦ record s { closed = true; timer = Timer.cleared; ended = true }
  | Timer.cleared ↦ record s { closed = true; ended = true }
]

pub is_terminal : OrderStatus → Bool
is_terminal OrderStatus.delivered = true
is_terminal OrderStatus.cancelled = true
is_terminal OrderStatus.failed = true
is_terminal _ = false

-- What `composeCartView` comes back with: an exception or a view.
pub data Read : Type 0 where
  threw : Read
  read : CartView → Read

pub see_terminal : ℕ → Feed → Feed
unfolding close
see_terminal now s =
    if s.terminal_seen_at == 0
    then record s { terminal_seen_at = now }
    else if ltb 2500 (now - s.terminal_seen_at)
    then close s
    else s

-- The rest of a tick after its `await`, at the time `now`.
pub tick : Read → ℕ → Feed → Feed
unfolding send close is_terminal see_terminal
tick threw now s = s
tick (read v) now s = elim v.order [
  | none ↦ close (send Frame.not_found s)
  | some row ↦
      let sent = send (Frame.view v) s in
      if is_terminal row.status then see_terminal now sent else sent
]

pub data Event : Type 0 where
  aborted : Event
  ticked : Read → ℕ → Event

unfoldable pub step : Event → Feed → Feed
unfolding close tick
step aborted s = close s
step (ticked r now) s = tick r now s

-- `setInterval`, after the first tick.
pub start_timer : Feed → Feed
start_timer s = record s { timer = Timer.running }

unfoldable pub run_events : List Event → Feed → Feed
unfolding step
run_events [] s = s
run_events (e ∷ es) s = run_events es (step e s)

-- The feed: whether the client leaves during the first read, that read, and the events after it. A
-- tick whose read is under way when the timer is cleared still ends.
pub run_feed : Bool → Read → ℕ → List Event → Feed
unfolding run_events start_timer close tick
run_feed left first now events =
    let s = if left then close opened else opened in
    run_events events (start_timer (tick first now s))
