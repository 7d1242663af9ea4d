-- ===== src/Pipeline/Client/Attempts.antt =====
-- What one attempt of the client decides, and what a call is held against: the first decision among the
-- attempts.
use dinner_rush.Prelude.{
  ℕ, zero, suc, ◌+◌, ◌≤◌, String, Option, none, some, get_or, ◌≡◌, refl, sym, ap, ◌∙◌, subst,
  if◌then◌else◌, ltb, leb, ◌==◌, ◌||◌, arith, Bool-cases, inl, inr,
}
use dinner_rush.Pipeline.Breaker.{CircuitBreaker, record_success, record_failure}
use dinner_rush.Pipeline.Client.{
  Reply, responds, transport_error, other_error, Outcome, returned, unparsed, permanent, transient,
  breaker_open, escaped, Client, finished, again, judge, as_outcome, retried, exhausted,
}

-- The outcome that a reply decides, if it decides one.
pub definite : Reply → Option Outcome
definite (responds status json) =
    if ltb status 300
    then some (as_outcome json)
    else if (status == 429) || leb 500 status
    then none
    else some (permanent status)
definite transport_error = none
definite other_error = some escaped

-- The first decision among some attempts.
pub first_definite : (ℕ → Reply) → ℕ → ℕ → Option Outcome
first_definite reply zero attempt = none
first_definite reply (suc left) attempt = elim (definite (reply attempt)) [
  | some o ↦ some o
  | none ↦ first_definite reply left (attempt + 1)
]

-- What a call that was admitted does to the breaker.
pub breaker_after : ℕ → Outcome → CircuitBreaker → CircuitBreaker
breaker_after ended (returned json) b = record_success b
breaker_after ended unparsed b = record_success b
breaker_after ended (permanent status) b = record_success b
breaker_after ended transient b = record_failure ended b
breaker_after ended breaker_open b = b
breaker_after ended escaped b = b

pub record IsPosted (ended : ℕ) (o : Outcome) (most : ℕ) (c : Client) (result : Client × Outcome)
    : Type 0 where
  pub outcome : result.1 ≡ o
  pub breaker : result.0.breaker ≡ breaker_after ended o c.breaker
  pub retries : result.0.stats.retries ≤ c.stats.retries + most
  pub calls : result.0.stats.calls ≡ c.stats.calls
  pub counted :
      result.0.stats.successes + result.0.stats.failures ≤ c.stats.successes + c.stats.failures + 1
  pub kept : result.0.max_retries ≡ c.max_retries

pub record IsSame (c d : Client) : Type 0 where
  pub breaker : d.breaker ≡ c.breaker
  pub retries : d.stats.retries ≡ c.stats.retries
  pub calls : d.stats.calls ≡ c.stats.calls
  pub successes : d.stats.successes ≡ c.stats.successes
  pub failures : d.stats.failures ≡ c.stats.failures
  pub kept : d.max_retries ≡ c.max_retries

pub data JudgeCase (ended : ℕ) (r : Reply) (c : Client) : Type 0 where
  decided :
      (d : Client) (o : Outcome)
      → judge r c ≡ finished d o
      → definite r ≡ some o
      → IsPosted ended o 0 c (d, o)
      → JudgeCase ended r c
  undecided :
      (d : Client) → judge r c ≡ again d → definite r ≡ none → IsSame c d → JudgeCase ended r c

pub breaker_after-answer :
    (ended : ℕ) (json : Option String) (b : CircuitBreaker)
    → breaker_after ended (as_outcome json) b ≡ record_success b
unfolding breaker_after
breaker_after-answer ended none b = refl
breaker_after-answer ended (some json) b = refl

pub IsSame-refl : (c : Client) → IsSame c c
IsSame-refl c = record {
  breaker = refl;
  retries = refl;
  calls = refl;
  successes = refl;
  failures = refl;
  kept = refl;
}

pub judge-JudgeCase : (ended : ℕ) (r : Reply) (c : Client) → JudgeCase ended r c
unfolding judge definite breaker_after
judge-JudgeCase ended transport_error c = undecided c refl refl (IsSame-refl c)
judge-JudgeCase ended other_error c = decided c escaped refl refl (record {
  outcome = refl;
  breaker = refl;
  retries = omega arith;
  calls = refl;
  counted = omega arith;
  kept = refl;
})
judge-JudgeCase ended (responds status json) c = elim (Bool-cases (ltb status 300)) [
  | inl fine ↦
      decided
        (record c {
          stats = record c.stats { successes = c.stats.successes + 1 };
          breaker = record_success c.breaker;
        })
        (as_outcome json) (rw fine refl) (rw fine refl)
        (record {
          outcome = refl;
          breaker = sym (breaker_after-answer ended json c.breaker);
          retries = omega arith;
          calls = refl;
          counted = omega arith;
          kept = refl;
        })
  | inr other ↦ elim (Bool-cases (status == 429)) [
    | inl limited ↦
        undecided (record c { stats = record c.stats { rate_limited = c.stats.rate_limited + 1 } })
          (rw other (rw limited refl)) (rw other (rw limited refl))
          (record {
            breaker = refl;
            retries = refl;
            calls = refl;
            successes = refl;
            failures = refl;
            kept = refl;
          })
    | inr unlimited ↦ elim (Bool-cases (leb 500 status)) [
      | inl broken ↦
          undecided c (rw other (rw unlimited (rw broken refl)))
            (rw other (rw unlimited (rw broken refl))) (IsSame-refl c)
      | inr refused ↦
          decided (record c { breaker = record_success c.breaker }) (permanent status)
            (rw other (rw unlimited (rw refused refl))) (rw other (rw unlimited (rw refused refl)))
            (record {
              outcome = refl;
              breaker = refl;
              retries = omega arith;
              calls = refl;
              counted = omega arith;
              kept = refl;
            })
    ]
  ]
]

pub exhausted-IsPosted :
    (ended most : ℕ) (c d : Client)
    → IsSame c d
    → IsPosted ended transient most c (exhausted ended d)
unfolding exhausted breaker_after
exhausted-IsPosted ended most c d h = record {
  outcome = refl;
  breaker = ap (λ b. record_failure ended b) h.breaker;
  retries = omega (arith, h.retries);
  calls = h.calls;
  counted = omega (arith, h.successes, h.failures);
  kept = h.kept;
}

pub later-IsPosted :
    (ended most : ℕ) (o : Outcome) (c d : Client) (result : Client × Outcome)
    → IsSame c d
    → IsPosted ended o most (retried d) result
    → IsPosted ended o (suc most) c result
later-IsPosted ended most o c d result h k = record {
  outcome = k.outcome;
  breaker = k.breaker ∙ ap (breaker_after ended o) h.breaker;
  retries = omega (arith, k.retries, h.retries);
  calls = k.calls ∙ h.calls;
  counted = omega (arith, k.counted, h.successes, h.failures);
  kept = k.kept ∙ h.kept;
}

pub first-decided :
    (reply : ℕ → Reply) (left attempt : ℕ) (o : Outcome)
    → definite (reply attempt) ≡ some o
    → get_or (first_definite reply (suc left) attempt) transient ≡ o
unfolding first_definite
first-decided reply left attempt o d = ground arith

pub first-again :
    (reply : ℕ → Reply) (left attempt : ℕ)
    → definite (reply attempt) ≡ none
    → first_definite reply (suc left) attempt ≡ first_definite reply left (attempt + 1)
unfolding first_definite
first-again reply left attempt d = ground arith

pub first-none :
    (reply : ℕ → Reply) (attempt : ℕ)
    → get_or (first_definite reply zero attempt) transient ≡ transient
unfolding first_definite
first-none reply attempt = refl

pub first-undecided :
    (reply : ℕ → Reply) (left attempt : ℕ)
    → ((n : ℕ) → definite (reply n) ≡ none)
    → get_or (first_definite reply left attempt) transient ≡ transient
unfolding first_definite
first-undecided reply zero attempt u = refl
first-undecided reply (suc left) attempt u =
    ap (λ o. get_or o transient) (first-again reply left attempt (u attempt))
    ∙ first-undecided reply left (attempt + 1) u

pub definite-limited : (body : Option String) → definite (responds 429 body) ≡ none
unfolding definite
definite-limited body = refl

pub breaker_after-transient :
    (ended : ℕ) (b : CircuitBreaker) → breaker_after ended transient b ≡ record_failure ended b
unfolding breaker_after
breaker_after-transient ended b = refl

pub first-escaped :
    (reply : ℕ → Reply) (most attempt : ℕ)
    → reply attempt ≡ other_error
    → get_or (first_definite reply (most + 1) attempt) transient ≡ escaped
unfolding definite
first-escaped reply most attempt e =
    let rounds : suc most ≡ most + 1 = omega arith in
    subst (λ k. get_or (first_definite reply k attempt) transient ≡ escaped) rounds
      (first-decided reply most attempt escaped (ap definite e))

pub breaker_after-escaped : (ended : ℕ) (b : CircuitBreaker) → breaker_after ended escaped b ≡ b
unfolding breaker_after
breaker_after-escaped ended b = refl
