-- ===== src/Pipeline/Breaker/Laws.antt =====
-- What the breaker keeps in whatever order its calls come, and how many calls an open breaker admits.
use dinner_rush.Prelude.{
  ℕ, ◌-◌, ◌<◌, Bool, true, false, List, [], ◌∷◌, ◌≡◌, refl, any, leb, if◌then◌else◌, arith,
  Bool-cases, inl, inr,
}
use dinner_rush.Pipeline.Breaker.{
  closed, open_, half_open, CircuitBreaker, new_breaker, allow, record_success, record_failure,
  trip, probe, allow_all, Event, asks, succeeds, fails, step, run_breaker,
}

pub record IsBreaker (threshold : ℕ) (b : CircuitBreaker) : Type 0 where
  pub kept : b.fail_threshold ≡ threshold
  pub below : b.state ≡ closed → b.failures < threshold
  pub probed : b.probe_inflight ≡ true → b.state ≡ half_open
  pub opened : b.state ≡ half_open → b.probe_inflight ≡ true

step-IsBreaker :
    (threshold now : ℕ) (e : Event) (b : CircuitBreaker)
    → 0 < threshold
    → IsBreaker threshold b
    → IsBreaker threshold (step now e b)
unfolding step allow probe record_success record_failure trip
step-IsBreaker threshold now asks b p h = ground (arith, h.kept, h.below, h.probed, h.opened)
step-IsBreaker threshold now succeeds b p h = ground (arith, p, h.kept, h.below, h.probed, h.opened)
step-IsBreaker threshold now fails b p h = ground (arith, h.kept, h.below, h.probed, h.opened)

run-IsBreaker :
    (threshold : ℕ) (es : List (ℕ × Event)) (b : CircuitBreaker)
    → 0 < threshold
    → IsBreaker threshold b
    → IsBreaker threshold (run_breaker es b)
unfolding run_breaker
run-IsBreaker threshold [] b p h = h
run-IsBreaker threshold ((now, e) ∷ es) b p h =
    run-IsBreaker threshold es (step now e b) p (step-IsBreaker threshold now e b p h)

-- Whatever calls a new breaker gets, in whatever order and at whatever times: while it is closed its
-- failures are below the threshold, and it is half open exactly while one probe is under way.
pub run_breaker-IsBreaker :
    (threshold open_ms : ℕ) (es : List (ℕ × Event))
    → 0 < threshold
    → IsBreaker threshold (run_breaker es (new_breaker threshold open_ms))
run_breaker-IsBreaker threshold open_ms es p =
    run-IsBreaker threshold es (new_breaker threshold open_ms) p
      (record { kept = refl; below = λ e. p; probed = λ e. absurd (cc); opened = λ e. absurd (cc) })

-- A breaker that waits for a probe admits nothing more, and stays as it is.
pub waits :
    (times : List ℕ) (b : CircuitBreaker)
    → b.state ≡ half_open
    → b.probe_inflight ≡ true
    → allow_all times b ≡ (b, 0)
unfolding allow_all allow probe
waits [] b s p = refl
waits (now ∷ times) b s p = ground (arith, waits times b s p)

abbrev pub is_due : CircuitBreaker → ℕ → Bool
is_due b now = leb b.open_ms (now - b.opened_at)

allow-closed_for :
    (b : CircuitBreaker) (now : ℕ)
    → b.state ≡ open_
    → is_due b now ≡ false
    → allow now b ≡ (b, false)
unfolding allow
allow-closed_for b now s w = ground arith

pub allow-due :
    (b : CircuitBreaker) (now : ℕ)
    → b.state ≡ open_
    → is_due b now ≡ true
    → allow now b ≡ (record b { state = half_open; probe_inflight = true }, true)
unfolding allow probe
allow-due b now s w = ground arith

-- An open breaker admits exactly one of the calls that come before a result, if one comes when the time is
-- up, and none otherwise.
pub allow_all-one :
    (times : List ℕ) (b : CircuitBreaker)
    → b.state ≡ open_
    → (allow_all times b).1 ≡ (if any (is_due b) times then 1 else 0)
unfolding allow_all
allow_all-one [] b s = refl
allow_all-one (now ∷ times) b s = elim (Bool-cases (is_due b now)) [
  | inl due ↦ rw (allow-due b now s due) (
      rw due
        (rw (waits times (record b { state = half_open; probe_inflight = true }) refl refl) refl))
  | inr early ↦ rw (allow-closed_for b now s early) (rw early (allow_all-one times b s))
]
