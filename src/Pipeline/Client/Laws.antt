-- ===== src/Pipeline/Client/Laws.antt =====
-- What a call of the client comes to: the first definite answer within the attempts, or a transient failure.
use dinner_rush.Prelude.{ℕ, zero, suc, ◌+◌, true, false, get_or, ◌≡◌, refl, subst, ltb, arith}
use dinner_rush.Pipeline.Breaker.{allow}
use dinner_rush.Pipeline.Client.{
  Reply, Outcome, transient, breaker_open, Client, finished, again, judge, retried, exhausted,
  post_from, post_json,
}
use dinner_rush.Pipeline.Client.Attempts.{
  first_definite, IsPosted, decided, undecided, judge-JudgeCase, exhausted-IsPosted, later-IsPosted,
  first-decided, first-again, first-none,
}

module _ (reply : ℕ → Reply) (ended attempts left attempt : ℕ) (c : Client) where
  post-decided :
      (d : Client) (o : Outcome)
      → judge (reply attempt) c ≡ finished d o
      → post_from reply ended attempts (suc left) attempt c ≡ (d, o)
  unfolding post_from
  post-decided d o j = ground arith

  post-last :
      (d : Client)
      → judge (reply attempt) c ≡ again d
      → ltb attempt attempts ≡ false
      → post_from reply ended attempts (suc left) attempt c ≡ exhausted ended d
  unfolding post_from
  post-last d j last = ground arith

  post-again :
      (d : Client)
      → judge (reply attempt) c ≡ again d
      → ltb attempt attempts ≡ true
      → post_from reply ended attempts (suc left) attempt c
        ≡ post_from reply ended attempts left (attempt + 1) (retried d)
  unfolding post_from
  post-again d j more = ground arith

more-IsPosted :
    (ended most : ℕ) (o : Outcome) (c d : Client)
    → IsPosted ended o 0 c (d, o)
    → IsPosted ended o most c (d, o)
more-IsPosted ended most o c d h = record {
  outcome = h.outcome;
  breaker = h.breaker;
  retries = omega (arith, h.retries);
  calls = h.calls;
  counted = h.counted;
  kept = h.kept;
}

post_from-IsPosted :
    (reply : ℕ → Reply) (ended attempts left attempt : ℕ) (c : Client)
    → attempt + left ≡ attempts
    → IsPosted ended
        (get_or (first_definite reply (suc left) attempt) transient)
        left
        c
        (post_from reply ended attempts (suc left) attempt c)
post_from-IsPosted reply ended attempts zero attempt c e =
    elim (judge-JudgeCase ended (reply attempt) c) [
      | decided d o j f h ↦
          rw (post-decided reply ended attempts 0 attempt c d o j)
            (rw (first-decided reply 0 attempt o f) h)
      | undecided d j f h ↦
          rw (post-last reply ended attempts 0 attempt c d j (ground (arith, e))) (
            rw (first-again reply 0 attempt f)
              (rw (first-none reply (attempt + 1)) (exhausted-IsPosted ended 0 c d h)))
    ]
post_from-IsPosted reply ended attempts (suc left) attempt c e =
    elim (judge-JudgeCase ended (reply attempt) c) [
      | decided d o j f h ↦
          rw (post-decided reply ended attempts (suc left) attempt c d o j) (
            rw (first-decided reply (suc left) attempt o f)
              (more-IsPosted ended (suc left) o c d h))
      | undecided d j f h ↦
          rw (post-again reply ended attempts (suc left) attempt c d j (ground (arith, e))) (
            rw (first-again reply (suc left) attempt f) (
              later-IsPosted ended left _ c d _ h (
                post_from-IsPosted reply ended attempts left (attempt + 1) (retried d)
                  (omega (arith, e)))))
    ]

-- A call that the breaker admits comes to the first definite answer among its attempts, or else to one
-- transient failure; the breaker records that outcome once; and no more retries are made than allowed.
pub post_json-IsPosted :
    (now ended : ℕ) (reply : ℕ → Reply) (c : Client)
    → (allow now c.breaker).1 ≡ true
    → IsPosted ended
        (get_or (first_definite reply (c.max_retries + 1) 1) transient)
        c.max_retries
        (record c {
          breaker = (allow now c.breaker).0;
          stats = record c.stats { calls = c.stats.calls + 1 };
        })
        (post_json now ended reply c)
unfolding post_json
post_json-IsPosted now ended reply c ok =
    let called : Client = record c {
      breaker = (allow now c.breaker).0;
      stats = record c.stats { calls = c.stats.calls + 1 };
    } in
    let rounds : suc c.max_retries ≡ c.max_retries + 1 = omega arith in
    rw ok (
      subst
        (λ k.
          IsPosted ended (get_or (first_definite reply k 1) transient) c.max_retries called
            (post_from reply ended (c.max_retries + 1) k 1 called))
        rounds
        (post_from-IsPosted reply ended (c.max_retries + 1) c.max_retries 1 called (omega arith)))

refused :
    (now ended : ℕ) (reply : ℕ → Reply) (c : Client)
    → (allow now c.breaker).1 ≡ false
    → post_json now ended reply c ≡ (record c { breaker = (allow now c.breaker).0 }, breaker_open)
unfolding post_json
refused now ended reply c off = rw off refl
