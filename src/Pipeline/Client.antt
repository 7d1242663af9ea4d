-- ===== src/Pipeline/Client.antt =====
-- The client of the downstream services, `ResilientClient` of libs/drcommon/drcommon/http_client.py. The
-- waits between the attempts and the latencies, which decide nothing, are left out.
mod Attempts
mod Laws
mod Faults
mod Tests
use dinner_rush.Prelude.{
  ℕ, zero, suc, ◌+◌, String, Bool, true, false, Option, none, some, if◌then◌else◌, ltb, leb, ◌==◌,
}
use dinner_rush.Pipeline.Breaker.{
  CircuitBreaker, allow, record_success, record_failure, new_breaker,
}

-- What one `post` of httpx comes to: a response with its status and its JSON, `none` where the text is
-- none; a `TimeoutException` or a `TransportError`; or any other `Exception`.
pub data Reply : Type 0 where
  responds : ℕ → Option String → Reply
  transport_error : Reply
  other_error : Reply

pub data Outcome : Type 0 where
  returned : String → Outcome
  unparsed : Outcome
  permanent : ℕ → Outcome
  transient : Outcome
  breaker_open : Outcome
  escaped : Outcome

pub record CallStats : Type 0 where
  pub calls : ℕ
  pub successes : ℕ
  pub failures : ℕ
  pub rate_limited : ℕ
  pub retries : ℕ

pub record Client : Type 0 where
  pub max_retries : ℕ
  pub breaker : CircuitBreaker
  pub stats : CallStats

abbrev pub new_client : ℕ → ℕ → ℕ → Client
new_client max_retries fail_threshold open_ms = record {
  max_retries = max_retries;
  breaker = new_breaker fail_threshold open_ms;
  stats = record { calls = 0; successes = 0; failures = 0; rate_limited = 0; retries = 0 };
}

-- What an attempt does before it is known whether there is another one.
pub data Verdict : Type 0 where
  finished : Client → Outcome → Verdict
  again : Client → Verdict

abbrev pub as_outcome : Option String → Outcome
as_outcome none = unparsed
as_outcome (some json) = returned json

pub judge : Reply → Client → Verdict
judge (responds status json) c =
    if ltb status 300
    then finished
        (record c {
          stats = record c.stats { successes = c.stats.successes + 1 };
          breaker = record_success c.breaker;
        })
        (as_outcome json)
    else if status == 429
    then again (record c { stats = record c.stats { rate_limited = c.stats.rate_limited + 1 } })
    else if leb 500 status
    then again c
    else finished (record c { breaker = record_success c.breaker }) (permanent status)
judge transport_error c = again c
judge other_error c = finished c escaped

abbrev pub retried : Client → Client
retried c = record c { stats = record c.stats { retries = c.stats.retries + 1 } }

-- After the loop: one failure for the whole call.
pub exhausted : ℕ → Client → Client × Outcome
exhausted ended c = (
  record c {
    stats = record c.stats { failures = c.stats.failures + 1 };
    breaker = record_failure ended c.breaker;
  },
  transient,
)

-- The loop from an attempt on, with the attempts that `range` has left.
pub post_from : (ℕ → Reply) → ℕ → ℕ → ℕ → ℕ → Client → Client × Outcome
unfolding exhausted
post_from reply ended attempts zero attempt c = exhausted ended c
post_from reply ended attempts (suc left) attempt c = elim (judge (reply attempt) c) [
  | finished c' o ↦ (c', o)
  | again c' ↦
      let rest = post_from reply ended attempts left (attempt + 1) (retried c') in
      if ltb attempt attempts then rest else exhausted ended c'
]

pub post_json : ℕ → ℕ → (ℕ → Reply) → Client → Client × Outcome
unfolding post_from
post_json now ended reply c =
    let (b, ok) = allow now c.breaker in
    if ok
    then post_from reply ended (c.max_retries + 1) (c.max_retries + 1) 1
        (record c { breaker = b; stats = record c.stats { calls = c.stats.calls + 1 } })
    else (record c { breaker = b }, breaker_open)
