-- ===== src/Pipeline/Client/Faults.antt =====
-- Two calls after which the breaker is not what http_client.py says: one that is only ever rate limited,
-- and a probe that is left by another exception.
use dinner_rush.Prelude.{ℕ, ◌+◌, ◌≤◌, String, true, Option, List, ◌≡◌, ap, ◌∙◌, arith}
use dinner_rush.Pipeline.Breaker.{CircuitBreaker, closed, open_, allow, allow_all, record_failure}
use dinner_rush.Pipeline.Breaker.Laws.{waits, is_due, allow-due}
use dinner_rush.Pipeline.Client.{
  Reply, responds, other_error, transient, escaped, Client, post_json,
}
use dinner_rush.Pipeline.Client.Attempts.{
  definite-limited, first-undecided, breaker_after, breaker_after-transient, breaker_after-escaped,
  first-escaped,
}
use dinner_rush.Pipeline.Client.Laws.{post_json-IsPosted}

allow-closed : (now : ℕ) (b : CircuitBreaker) → b.state ≡ closed → allow now b ≡ (b, true)
unfolding allow
allow-closed now b s = ground arith

record_failure-closed :
    (ended : ℕ) (b : CircuitBreaker)
    → b.state ≡ closed
    → b.fail_threshold ≤ b.failures + 1
    → (record_failure ended b).state ≡ open_
unfolding record_failure
record_failure-closed ended b s t = ground arith

-- A call whose replies are all 429 fails as transient, and it opens a closed breaker whose failures it
-- brings to the threshold.
pub rate_limits-open :
    (now ended : ℕ) (bodies : ℕ → Option String) (c : Client)
    → c.breaker.state ≡ closed
    → c.breaker.fail_threshold ≤ c.breaker.failures + 1
    → let result = post_json now ended (λ n. responds 429 (bodies n)) c in
      (result.1 ≡ transient) × (result.0.breaker.state ≡ open_)
rate_limits-open now ended bodies c s t =
    let reply : ℕ → Reply = λ n. responds 429 (bodies n) in
    let admitted = allow-closed now c.breaker s in
    let none_decides =
      first-undecided reply (c.max_retries + 1) 1 (λ n. definite-limited (bodies n)) in
    let h = post_json-IsPosted now ended reply c (ap (λ x. x.1) admitted) in
    (
      h.outcome ∙ none_decides,
      ap (λ (b : CircuitBreaker). b.state)
            (h.breaker
              ∙ ap (λ o. breaker_after ended o (allow now c.breaker).0) none_decides
              ∙ breaker_after-transient ended (allow now c.breaker).0
              ∙ ap (λ x. record_failure ended x.0) admitted)
          ∙ record_failure-closed ended c.breaker s t,
    )

-- After a probe that is left by an exception which the client does not catch, the breaker admits no call
-- ever again, unless an earlier call still comes back.
pub escaped_probe-stuck :
    (now ended : ℕ) (reply : ℕ → Reply) (c : Client) (times : List ℕ)
    → c.breaker.state ≡ open_
    → is_due c.breaker now ≡ true
    → reply 1 ≡ other_error
    → let result = post_json now ended reply c in
      (result.1 ≡ escaped) × (allow_all times result.0.breaker ≡ (result.0.breaker, 0))
escaped_probe-stuck now ended reply c times s due r =
    let admitted = allow-due c.breaker now s due in
    let escapes = first-escaped reply c.max_retries 1 r in
    let h = post_json-IsPosted now ended reply c (ap (λ x. x.1) admitted) in
    let left =
      h.breaker
      ∙ ap (λ o. breaker_after ended o (allow now c.breaker).0) escapes
      ∙ breaker_after-escaped ended (allow now c.breaker).0
      ∙ ap (λ x. x.0) admitted in
    (
      h.outcome ∙ escapes,
      waits times (post_json now ended reply c).0.breaker
          (ap (λ (b : CircuitBreaker). b.state) left)
          (ap (λ (b : CircuitBreaker). b.probe_inflight) left),
    )
