-- ===== src/Orders/Status/Laws.antt =====
-- What the status of a whole cart says of its orders.
use dinner_rush.Prelude.{
  ℕ, zero, suc, ◌≤◌, ◌<◌, String, true, false, get_or, List, [], ◌∷◌, ◌≡◌, ◌≢◌, ◌↔◌, ◌⊎◌, inl, inr,
  refl, str_eq, eq_iff, filter, any, length, get_elem?, min, arith, All, Occurs, All-Occurs,
  Bool-cases, sym, leb, ◌∙◌, ◌==◌,
}
use dinner_rush.OrderApi.{OrderStatus}
use dinner_rush.Orders.Status.{status_name, flow, flow_idx, least, is_active, aggregate_status}

any_failed :
    (states : List String) → (any (λ s. str_eq s "failed") states ≡ true) ↔ Occurs "failed" states
any_failed [] = (λ h. absurd (cc), λ h. absurd h)
any_failed (s ∷ states) =
    let (to, from) = any_failed states in
    (
      λ h. elim (Bool-cases (str_eq s "failed")) [
        | inl same ↦ inl (sym ((eq_iff s "failed").0 same))
        | inr other ↦ inr (to (ground arith))
      ],
      λ o. elim o [ inl e ↦ ground (arith, eq_iff s "failed") | inr r ↦ ground (arith, from r) ],
    )

flow_idx-lt : (s : String) → flow_idx s < 6
unfolding flow_idx
flow_idx-lt s = ground arith

least_le : (m : ℕ) (states : List String) → least m states ≤ m
unfolding least
least_le m [] = omega arith
least_le m (s ∷ states) = omega (arith, least_le (min m (flow_idx s)) states)

least_le_each : (m : ℕ) (states : List String) → All (λ s. least m states ≤ flow_idx s) states
unfolding least
least_le_each m [] = tt
least_le_each m (s ∷ states) =
    (omega (arith, least_le (min m (flow_idx s)) states), least_le_each (min m (flow_idx s)) states)

least_attained :
    (m : ℕ) (states : List String)
    → (least m states ≡ m) ⊎ ((s : String) × Occurs s states × (least m states ≡ flow_idx s))
unfolding least
least_attained m [] = inl refl
least_attained m (s ∷ states) = elim (least_attained (min m (flow_idx s)) states) [
  | inl e ↦ elim (Bool-cases (leb m (flow_idx s))) [
    | inl h ↦ inl (e ∙ ground arith)
    | inr h ↦ inr (s, inl refl, e ∙ ground arith)
  ]
  | inr (t, o, e) ↦ inr (t, inr o, e)
]

-- The place of a status in the lifecycle.
abbrev pub rank : OrderStatus → ℕ
rank status = flow_idx (status_name status)

nth : ℕ → OrderStatus
nth k = get_or (get_elem? flow k) OrderStatus.delivered

rank-nth : (k : ℕ) → k < 6 → rank (nth k) ≡ k
unfolding flow_idx nth
rank-nth zero h = refl
rank-nth (suc zero) h = refl
rank-nth (suc (suc zero)) h = refl
rank-nth (suc (suc (suc zero))) h = refl
rank-nth (suc (suc (suc (suc zero)))) h = refl
rank-nth (suc (suc (suc (suc (suc zero))))) h = refl
rank-nth (suc (suc (suc (suc (suc (suc k)))))) h = absurd (omega arith)

nth_in_flow : (k : ℕ) → (nth k ≢ OrderStatus.failed) × (nth k ≢ OrderStatus.cancelled)
unfolding nth
nth_in_flow zero = (λ e. cc, λ e. cc)
nth_in_flow (suc zero) = (λ e. cc, λ e. cc)
nth_in_flow (suc (suc zero)) = (λ e. cc, λ e. cc)
nth_in_flow (suc (suc (suc zero))) = (λ e. cc, λ e. cc)
nth_in_flow (suc (suc (suc (suc zero)))) = (λ e. cc, λ e. cc)
nth_in_flow (suc (suc (suc (suc (suc zero))))) = (λ e. cc, λ e. cc)
nth_in_flow (suc (suc (suc (suc (suc (suc k)))))) = (λ e. cc, λ e. cc)

abbrev pub IsCancelled : String → Type 0
IsCancelled s = s ≡ "cancelled"

none_active :
    (states : List String) → (length (filter is_active states) == 0) ≡ true → All IsCancelled states
none_active [] h = tt
none_active (s ∷ states) h = elim (Bool-cases (str_eq s "cancelled")) [
  | inl same ↦ ((eq_iff s "cancelled").0 same, none_active states (ground arith))
  | inr other ↦ absurd (ground arith)
]

some_active :
    (states : List String)
    → (length (filter is_active states) == 0) ≡ false
    → (s : String) × Occurs s (filter is_active states)
some_active states h = pick (filter is_active states) h
  where
    pick : (xs : List String) → (length xs == 0) ≡ false → (s : String) × Occurs s xs
    pick [] e = absurd (cc)
    pick (x ∷ xs) e = (x, inl refl)

active_of :
    (s : String) (states : List String)
    → Occurs s (filter is_active states)
    → Occurs s states × (s ≢ "cancelled")
active_of s [] o = absurd o
active_of s (x ∷ states) o = elim (Bool-cases (str_eq x "cancelled")) [
  | inl same ↦ let (o', n) = active_of s states (rw same at o) in (inr o', n)
  | inr other ↦ elim (rw other at o) [
    | inl e ↦ (inl e, λ c. ground (arith, eq_iff x "cancelled"))
    | inr r ↦ let (o', n) = active_of s states r in (inr o', n)
  ]
]

-- The least place among the active orders, when there is one.
least_active :
    (states : List String)
    → (length (filter is_active states) == 0) ≡ false
    → (s : String) × Occurs s (filter is_active states)
      × (least 5 (filter is_active states) ≡ flow_idx s)
least_active states h = elim (least_attained 5 (filter is_active states)) [
  | inr found ↦ found
  | inl e ↦
      let (s, o) = some_active states h in
      let below =
        All-Occurs (λ t. least 5 (filter is_active states) ≤ flow_idx t) (filter is_active states)
          (least_le_each 5 (filter is_active states)) o in
      (s, o, omega (arith, below, flow_idx-lt s))
]

-- What `status` has to be for orders in these states.
pub record IsAggregate (states : List String) (status : OrderStatus) : Type 0 where
  pub failed_iff : (status ≡ OrderStatus.failed) ↔ Occurs "failed" states
  pub cancelled_iff :
      (status ≡ OrderStatus.cancelled) ↔ ((¬ Occurs "failed" states) × All IsCancelled states)
  pub least :
      status ≢ OrderStatus.failed
      → (s : String) → Occurs s states
      → s ≢ "cancelled"
      → rank status ≤ flow_idx s
  pub attained :
      status ≢ OrderStatus.failed
      → status ≢ OrderStatus.cancelled
      → (s : String) × Occurs s states × (s ≢ "cancelled") × (rank status ≡ flow_idx s)

Occurs-active :
    (s : String) (states : List String)
    → Occurs s states
    → s ≢ "cancelled"
    → Occurs s (filter is_active states)
Occurs-active s [] o n = o
Occurs-active s (x ∷ states) o n = elim (Bool-cases (str_eq x "cancelled")) [
  | inl same ↦ elim o [
    | inl e ↦ absurd (n (e ∙ (eq_iff x "cancelled").0 same))
    | inr r ↦ rw same (Occurs-active s states r n)
  ]
  | inr other ↦ elim o [
    | inl e ↦ rw other (inl e)
    | inr r ↦ rw other (inr (Occurs-active s states r n))
  ]
]

module _ (states : List String) where
  failed-IsAggregate :
      any (λ s. str_eq s "failed") states ≡ true → IsAggregate states OrderStatus.failed
  failed-IsAggregate h = record {
    failed_iff = (λ e. (any_failed states).0 h, λ o. refl);
    cancelled_iff = (λ e. absurd (cc), λ (n, a). absurd (n ((any_failed states).0 h)));
    least = λ n. absurd (n refl);
    attained = λ n. absurd (n refl);
  }

  cancelled-IsAggregate :
      any (λ s. str_eq s "failed") states ≡ false
      → (length (filter is_active states) == 0) ≡ true
      → IsAggregate states OrderStatus.cancelled
  cancelled-IsAggregate h e =
      let every = none_active states e in
      let clean : ¬ Occurs "failed" states = λ o. cc ((any_failed states).1 o) in
      record {
        failed_iff = (λ p. absurd (cc), λ o. absurd (clean o));
        cancelled_iff = (λ p. (clean, every), λ p. refl);
        least = λ n s o c. absurd (c (All-Occurs IsCancelled states every o));
        attained = λ n m. absurd (m refl);
      }

  flow-IsAggregate :
      any (λ s. str_eq s "failed") states ≡ false
      → (length (filter is_active states) == 0) ≡ false
      → IsAggregate states (nth (least 5 (filter is_active states)))
  flow-IsAggregate h e =
      let (s, o, at) = least_active states e in
      let (o', n) = active_of s states o in
      let place = rank-nth (least 5 (filter is_active states)) (omega (arith, flow_idx-lt s)) in
      let (nf, nc) = nth_in_flow (least 5 (filter is_active states)) in
      record {
        failed_iff = (λ p. absurd (nf p), λ f. absurd (cc ((any_failed states).1 f)));
        cancelled_iff =
            (λ p. absurd (nc p), λ (c, every). absurd (n (All-Occurs IsCancelled states every o')));
        least = λ k t w c. omega (
          arith,
          place,
          All-Occurs (λ u. least 5 (filter is_active states) ≤ flow_idx u) (filter is_active states)
              (least_le_each 5 (filter is_active states)) (Occurs-active t states w c),
        );
        attained = λ k m. (s, o', n, place ∙ at);
      }

  -- The status of a cart is `failed` exactly when an order has failed; `cancelled` exactly when none has
  -- failed and all are cancelled; and otherwise the status of a least advanced order among those that
  -- are not cancelled, where an unknown state counts as `placed`.
  pub aggregate_status-IsAggregate : IsAggregate states (aggregate_status states)
  unfolding aggregate_status nth
  aggregate_status-IsAggregate = elim (Bool-cases (any (λ s. str_eq s "failed") states)) [
    | inl h ↦ rw h (failed-IsAggregate h)
    | inr h ↦ elim (Bool-cases (length (filter is_active states) == 0)) [
      | inl e ↦ rw (h) (rw e (cancelled-IsAggregate h e))
      | inr e ↦ rw (h) (rw e (flow-IsAggregate h e))
    ]
  ]
