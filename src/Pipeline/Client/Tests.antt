-- ===== src/Pipeline/Client/Tests.antt =====
-- Calls of a client with three retries: a limit, an outage and an answer; limits only; a broken probe.
use dinner_rush.Prelude.{
  ℕ, ◌≡◌, refl, String, Option, none, some, get_or, List, [], ◌∷◌, if◌then◌else◌, ◌==◌, arith,
}
use dinner_rush.Pipeline.Breaker.{open_, allow, allow_all}
use dinner_rush.Pipeline.Client.{
  Client, Reply, responds, transport_error, other_error, transient, escaped, new_client, post_json,
}
use dinner_rush.Pipeline.Client.Attempts.{IsPosted, first_definite}
use dinner_rush.Pipeline.Client.Laws.{post_json-IsPosted}
use dinner_rush.Pipeline.Client.Faults.{rate_limits-open, escaped_probe-stuck}

abbrev reply : ℕ → Reply
reply n =
    if n == 1
    then responds 429 none
    else if n == 2
    then transport_error
    else responds 200 (some "{}")

abbrev client : Client
client = new_client 3 5 10000

post_json-IsPosted_example :
    IsPosted 90
      (get_or (first_definite reply 4 1) transient)
      3
      (record client { stats = record client.stats { calls = 1 } })
      (post_json 50 90 reply client)
unfolding allow
post_json-IsPosted_example = post_json-IsPosted 50 90 reply client refl

abbrev bodies : ℕ → Option String
bodies n = none

abbrev limited : ℕ → Reply
limited n = responds 429 none

abbrev eager : Client
eager = new_client 3 1 10000

rate_limits-open_example :
    ((post_json 50 90 limited eager).1 ≡ transient)
    × ((post_json 50 90 limited eager).0.breaker.state ≡ open_)
rate_limits-open_example = rate_limits-open 50 90 bodies eager refl (omega arith)

abbrev broken : ℕ → Reply
broken n = other_error

abbrev probing : Client
probing = record client { breaker = record client.breaker { state = open_; opened_at = 0 } }

abbrev times : List ℕ
times = 20001 ∷ 30000 ∷ []

escaped_probe-stuck_example :
    ((post_json 20000 20500 broken probing).1 ≡ escaped)
    × (allow_all times (post_json 20000 20500 broken probing).0.breaker
        ≡ ((post_json 20000 20500 broken probing).0.breaker, 0))
escaped_probe-stuck_example = escaped_probe-stuck 20000 20500 broken probing times refl refl refl
