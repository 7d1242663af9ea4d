-- ===== src/Pipeline/Breaker.antt =====
-- The circuit breaker of libs/drcommon/drcommon/http_client.py. Times are readings of the monotonic clock,
-- in milliseconds.
pub mod Laws
mod Tests
use dinner_rush.Prelude.{ℕ, ◌+◌, ◌-◌, Bool, true, false, List, [], ◌∷◌, if◌then◌else◌, leb}

pub data BreakerState : Type 0 where
  closed open_ half_open : BreakerState

pub record CircuitBreaker : Type 0 where
  pub fail_threshold : ℕ
  pub open_ms : ℕ
  pub state : BreakerState
  pub failures : ℕ
  pub opened_at : ℕ
  pub probe_inflight : Bool

abbrev pub new_breaker : ℕ → ℕ → CircuitBreaker
new_breaker fail_threshold open_ms = record {
  fail_threshold = fail_threshold;
  open_ms = open_ms;
  state = closed;
  failures = 0;
  opened_at = 0;
  probe_inflight = false;
}

-- The last part of `allow`: one probe is admitted, the rest is rejected.
probe : CircuitBreaker → CircuitBreaker × Bool
probe b = if b.probe_inflight then (b, false) else (record b { probe_inflight = true }, true)

unfoldable pub allow : ℕ → CircuitBreaker → CircuitBreaker × Bool
unfolding probe
allow now b = elim b.state [
  | closed ↦ (b, true)
  | open_ ↦
      if leb b.open_ms (now - b.opened_at)
      then probe (record b { state = half_open; probe_inflight = false })
      else (b, false)
  | half_open ↦ probe b
]

pub record_success : CircuitBreaker → CircuitBreaker
record_success b = record b { failures = 0; probe_inflight = false; state = closed }

trip : ℕ → CircuitBreaker → CircuitBreaker
trip now b = record b { state = open_; opened_at = now; probe_inflight = false }

unfoldable pub record_failure : ℕ → CircuitBreaker → CircuitBreaker
unfolding trip
record_failure now b = elim b.state [
  | half_open ↦ trip now b
  | closed ↦
      if leb b.fail_threshold (b.failures + 1)
      then trip now (record b { failures = b.failures + 1 })
      else record b { failures = b.failures + 1 }
  | open_ ↦
      if leb b.fail_threshold (b.failures + 1)
      then trip now (record b { failures = b.failures + 1 })
      else record b { failures = b.failures + 1 }
]

-- Calls of the breaker at their times, and how many of them were admitted.
pub allow_all : List ℕ → CircuitBreaker → CircuitBreaker × ℕ
unfolding allow
allow_all [] b = (b, 0)
allow_all (now ∷ times) b =
    let (b', ok) = allow now b in
    let (b'', n) = allow_all times b' in (b'', if ok then n + 1 else n)

pub data Event : Type 0 where
  asks : Event
  succeeds : Event
  fails : Event

pub step : ℕ → Event → CircuitBreaker → CircuitBreaker
unfolding allow record_success record_failure
step now asks b = (allow now b).0
step now succeeds b = record_success b
step now fails b = record_failure now b

pub run_breaker : List (ℕ × Event) → CircuitBreaker → CircuitBreaker
unfolding step
run_breaker [] b = b
run_breaker ((now, e) ∷ es) b = run_breaker es (step now e b)
