-- ===== src/Pipeline/Breaker/Tests.antt =====
-- An open breaker that is asked too early, in time, and again; and a breaker that failed twice.
use dinner_rush.Prelude.{ℕ, ◌≡◌, refl, List, [], ◌∷◌, any, if◌then◌else◌}
use dinner_rush.Pipeline.Breaker.{CircuitBreaker, open_, new_breaker, allow_all}
use dinner_rush.Pipeline.Breaker.Laws.{is_due, allow_all-one}

abbrev tripped : CircuitBreaker
tripped = record (new_breaker 2 10000) { state = open_; failures = 2; opened_at = 500 }

abbrev times : List ℕ
times = 600 ∷ 10600 ∷ 10601 ∷ 30000 ∷ []

allow_all-one_example : (allow_all times tripped).1 ≡ (if any (is_due tripped) times then 1 else 0)
allow_all-one_example = allow_all-one times tripped refl
