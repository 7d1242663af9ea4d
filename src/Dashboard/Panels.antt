-- ===== src/Dashboard/Panels.antt =====
-- What the dashboard's panels make of a snapshot, web/src/components: the classes of DownstreamCard.tsx,
-- the bars of Funnel.tsx, the banner of Queues.tsx, the alerts of KpiRow.tsx and the label of Header.tsx.
use dinner_rush.Prelude.{
  ℕ, max, ◌≤◌, ◌<◌, String, Bool, true, false, Option, none, some, List, [], ◌∷◌, map, ◌≡◌, ◌≢◌,
  ◌↔◌, sym, subst, Bool-cases, inl, inr, str_eq, eq_iff, if◌then◌else◌, ◌==◌, ◌||◌, leb, ltb, arith,
  All, All-map, All-mono,
}
use dinner_rush.Prelude.Text.{◌+s◌}
use dinner_rush.Prelude.Maps.{lookup}
use dinner_rush.Dashboard.{DownstreamHealth, States, Snapshot, ConnStatus, connecting, live, down}

breaker_labels : List (String × String)
breaker_labels =
    ("closed", "closed")
    ∷ ("open", "open")
    ∷ ("half_open", "half-open")
    ∷ ("unknown", "unknown")
    ∷ []

breaker_class : String → String
breaker_class b =
    if str_eq b "closed" || str_eq b "open" || str_eq b "half_open" then b else "unknown"

-- An error rate is in hundredths.
err_class : DownstreamHealth → String
err_class health =
    if leb 50 health.error_rate then "crit" else if leb 10 health.error_rate then "warn" else ""

lat_class : DownstreamHealth → String
lat_class health =
    if leb 2000 health.avg_latency_ms
    then "crit"
    else if leb 800 health.avg_latency_ms
    then "warn"
    else ""

card_class : DownstreamHealth → String
card_class health = "ds-card" +s (if health.down then " is-down" else "")

abbrev HasLabel : String → Type 0
HasLabel b = lookup (breaker_class b) breaker_labels ≢ none

labelled_as : (k b : String) → HasLabel k → str_eq b k ≡ true → HasLabel b
labelled_as k b h e = subst HasLabel (sym ((eq_iff b k).0 e)) h

breaker_class-other :
    (b : String)
    → str_eq b "closed" ≡ false
    → str_eq b "open" ≡ false
    → str_eq b "half_open" ≡ false
    → breaker_class b ≡ "unknown"
unfolding breaker_class
breaker_class-other b c o k = ground (arith, c, o, k)

-- Every breaker's chip has a label, whatever text the server sent.
breaker_class-HasLabel : (b : String) → HasLabel b
unfolding breaker_class breaker_labels
breaker_class-HasLabel b = elim (Bool-cases (str_eq b "closed")) [
  | inl c ↦ labelled_as "closed" b (λ h. ground arith) c
  | inr c ↦ elim (Bool-cases (str_eq b "open")) [
    | inl o ↦ labelled_as "open" b (λ h. ground arith) o
    | inr o ↦ elim (Bool-cases (str_eq b "half_open")) [
      | inl k ↦ labelled_as "half_open" b (λ h. ground arith) k
      | inr k ↦
          subst (λ u. lookup u breaker_labels ≢ none) (sym (breaker_class-other b c o k))
            (λ h. ground arith)
    ]
  ]
]

record Bar : Type 0 where
  label : String
  count : ℕ
  of : ℕ  -- the width of the bar is `count / of`

stages : States → List (String × ℕ)
stages s =
    ("Placed", s.placed)
    ∷ ("Confirmed", s.confirmed)
    ∷ ("Preparing", s.preparing)
    ∷ ("Ready", s.ready)
    ∷ ("Out for delivery", s.out_for_delivery)
    ∷ ("Delivered", s.delivered)
    ∷ []

largest : List (String × ℕ) → ℕ
largest [] = 1
largest ((label, v) ∷ rest) = max v (largest rest)

largest_positive : (xs : List (String × ℕ)) → 0 < largest xs
unfolding largest
largest_positive [] = omega arith
largest_positive ((label, v) ∷ rest) = ground (arith, largest_positive rest)

le_largest : (xs : List (String × ℕ)) → All (λ x. x.1 ≤ largest xs) xs
unfolding largest
le_largest [] = tt
le_largest ((label, v) ∷ rest) = (
  ground arith,
  All-mono (λ x. (x.1 ≤ largest rest)) (λ x. x.1 ≤ max v (largest rest)) (λ x h. ground arith) rest
      (le_largest rest),
)

funnel : States → List Bar
funnel s = map (λ x. record { label = x.0; count = x.1; of = largest (stages s) }) (stages s)

record IsBar (b : Bar) : Type 0 where
  fits : b.count ≤ b.of
  positive : 0 < b.of

-- No bar of the funnel is wider than its track, and no width divides by 0.
funnel-IsBar : (s : States) → All IsBar (funnel s)
unfolding funnel
funnel-IsBar s =
    All-map IsBar (λ x. record { label = x.0; count = x.1; of = largest (stages s) }) (stages s)
      (All-mono (λ x. x.1 ≤ largest (stages s))
        (λ x. IsBar (record { label = x.0; count = x.1; of = largest (stages s) }))
        (λ x h. record { fits = h; positive = largest_positive (stages s) }) (stages s)
        (le_largest (stages s)))

retry_hot : Snapshot → Bool
retry_hot snap = ltb 0 snap.retry_queue

dlq_hot : Snapshot → Bool
dlq_hot snap = ltb 0 snap.dlq_queue

-- The banner's text, with the numbers as `toLocaleString` writes them.
banner : (ℕ → String) → Snapshot → Option String
banner show snap =
    if dlq_hot snap
    then some (
        "STUCK / RETRYING — "
        +s show snap.dlq_queue
        +s " message"
        +s (if snap.dlq_queue == 1 then "" else "s")
        +s " in the dead-letter queue"
        +s (if retry_hot snap then ", " +s show snap.retry_queue +s " retrying" else "")
        +s ". Replay the DLQ once downstreams recover.")
    else if retry_hot snap
    then some (
        "RETRYING — "
        +s show snap.retry_queue
        +s " message"
        +s (if snap.retry_queue == 1 then "" else "s")
        +s " backing off and retrying a flaky downstream.")
    else none

-- There is no banner exactly when the retry queue and the dead-letter queue are both empty.
banner-none :
    (show : ℕ → String) (snap : Snapshot)
    → (banner show snap ≡ none) ↔ ((snap.retry_queue ≡ 0) × (snap.dlq_queue ≡ 0))
unfolding banner retry_hot dlq_hot
banner-none show snap = ground arith

failed_alert : Snapshot → Bool
failed_alert snap = ltb 0 snap.totals.failed

dlq_alert : Snapshot → Bool
dlq_alert snap = ltb 0 snap.dlq_depth

conn_label : ConnStatus → String
conn_label connecting = "connecting"
conn_label live = "live"
conn_label down = "disconnected"
