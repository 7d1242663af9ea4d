-- ===== src/Pipeline/Relay/Laws.antt =====
-- A row of the outbox is stamped only after it was published, and enough rounds publish all of them.
use dinner_rush.Prelude.{
  ℕ, zero, suc, ◌+◌, ◌*◌, ◌≤◌, Bool, true, List, [], ◌∷◌, ◌≡◌, refl, sym, ap, ◌∙◌, take, drop,
  length, length-drop, arith, Bool-cases, inl, inr,
}
use dinner_rush.Pipeline.Store.{Outgoing}
use dinner_rush.Pipeline.Store.Commands.{envelopes}
use dinner_rush.Pipeline.Broker.{Queues, publish_envelope}
use dinner_rush.Pipeline.Relay.{pending, publish_rows, stamp, drain_once, drain_rounds}

pub publish_all : List Outgoing → Queues → Queues
publish_all [] q = q
publish_all (o ∷ rows) q = publish_all rows (publish_envelope o.exchange o.envelope q)

pending-stamp : (n : ℕ) (rows : List Outgoing) → pending (stamp n rows) ≡ drop n (pending rows)
unfolding stamp
pending-stamp zero rows = refl
pending-stamp (suc n) [] = refl
pending-stamp (suc n) (o ∷ rows) = elim (Bool-cases o.published) [
  | inl on ↦ ground (arith, on, pending-stamp (suc n) rows)
  | inr off ↦ ground (arith, off, pending-stamp n rows)
]

publish_rows-confirmed :
    (i : ℕ) (rows : List Outgoing) (q : Queues)
    → publish_rows (λ n. true) i rows q ≡ (publish_all rows q, true)
unfolding publish_rows publish_all
publish_rows-confirmed i [] q = refl
publish_rows-confirmed i (o ∷ rows) q = publish_rows-confirmed (i + 1) rows _

publish_all-take-drop :
    (n : ℕ) (rows : List Outgoing) (q : Queues)
    → publish_all (drop n rows) (publish_all (take n rows) q) ≡ publish_all rows q
unfolding publish_all
publish_all-take-drop zero rows q = refl
publish_all-take-drop (suc n) [] q = refl
publish_all-take-drop (suc n) (o ∷ rows) q = publish_all-take-drop n rows _

drain_once-confirmed :
    (batch : ℕ) (rows : List Outgoing) (q : Queues)
    → (drain_once batch (λ i. true) (rows, q)).0
      ≡ (stamp batch rows, publish_all (take batch (pending rows)) q)
unfolding drain_once
drain_once-confirmed batch rows q = rw (publish_rows-confirmed 0 (take batch (pending rows)) q) refl

no_pending : (rows : List Outgoing) → length rows ≤ 0 → rows ≡ []
no_pending [] h = refl
no_pending (o ∷ rows) h = absurd (omega (arith, h))

-- Enough rounds publish the pending rows, all of them, each once and in their order, and stamp them.
pub drain_rounds-all :
    (n batch : ℕ) (rows : List Outgoing) (q : Queues)
    → length (pending rows) ≤ n * batch
    → (pending (drain_rounds n batch (rows, q)).0 ≡ [])
      × ((drain_rounds n batch (rows, q)).1 ≡ publish_all (pending rows) q)
unfolding drain_rounds publish_all
drain_rounds-all zero batch rows q h =
    let none_left = no_pending (pending rows) (omega (arith, h)) in
    (none_left, ap (λ p. publish_all p q) (sym none_left))
drain_rounds-all (suc n) batch rows q h =
    let round = drain_once-confirmed batch rows q in
    let sent = publish_all (take batch (pending rows)) q in
    let fewer : length (pending (stamp batch rows)) ≤ n * batch =
      omega
        (arith, h, ap length (pending-stamp batch rows), length-drop {0} batch (pending rows)) in
    let (done, all) = drain_rounds-all n batch (stamp batch rows) sent fewer in
    (
      ap (λ s. pending (drain_rounds n batch s).0) round ∙ done,
      ap (λ s. (drain_rounds n batch s).1) round
          ∙ all
          ∙ ap (λ p. publish_all p sent) (pending-stamp batch rows)
          ∙ publish_all-take-drop batch (pending rows) q,
    )

-- A round either stamps its batch, every row of which the broker has confirmed, or stamps nothing.
publish_rows-all :
    (confirms : ℕ → Bool) (i : ℕ) (rows : List Outgoing) (q : Queues)
    → (publish_rows confirms i rows q).1 ≡ true
    → (publish_rows confirms i rows q).0 ≡ publish_all rows q
unfolding publish_rows publish_all
publish_rows-all confirms i [] q h = refl
publish_rows-all confirms i (o ∷ rows) q h = elim (Bool-cases (confirms i)) [
  | inl ok ↦ rw ok (publish_rows-all confirms (i + 1) rows _ (ground (arith, ok, h)))
  | inr no_ ↦ absurd (ground (arith, no_, h))
]

pub data IsRound (batch : ℕ) (rows : List Outgoing) (q : Queues) (r : (List Outgoing × Queues) × ℕ)
    : Type 0 where
  moved_all :
      r ≡ (
        (stamp batch rows, publish_all (take batch (pending rows)) q),
        length (take batch (pending rows)),
      )
      → IsRound batch rows q r
  rolled_back : r.0.0 ≡ rows → r.1 ≡ 0 → IsRound batch rows q r

pub drain_once-IsRound :
    (batch : ℕ) (confirms : ℕ → Bool) (rows : List Outgoing) (q : Queues)
    → IsRound batch rows q (drain_once batch confirms (rows, q))
unfolding drain_once
drain_once-IsRound batch confirms rows q =
    elim (Bool-cases (publish_rows confirms 0 (take batch (pending rows)) q).1) [
      | inl ok ↦
          moved_all (rw ok (rw (publish_rows-all confirms 0 (take batch (pending rows)) q ok) refl))
      | inr no_ ↦ rolled_back (rw no_ refl) (rw no_ refl)
    ]

envelopes-stamp : (n : ℕ) (rows : List Outgoing) → envelopes (stamp n rows) ≡ envelopes rows
unfolding stamp
envelopes-stamp zero rows = refl
envelopes-stamp (suc n) [] = refl
envelopes-stamp (suc n) (o ∷ rows) = elim (Bool-cases o.published) [
  | inl on ↦ ground (arith, on, envelopes-stamp (suc n) rows)
  | inr off ↦ ground (arith, off, envelopes-stamp n rows)
]

pub drain_once-envelopes :
    (batch : ℕ) (confirms : ℕ → Bool) (rows : List Outgoing) (q : Queues)
    → envelopes (drain_once batch confirms (rows, q)).0.0 ≡ envelopes rows
drain_once-envelopes batch confirms rows q = elim (drain_once-IsRound batch confirms rows q) [
  | moved_all e ↦ ap (λ r. envelopes r.0.0) e ∙ envelopes-stamp batch rows
  | rolled_back e n ↦ ap envelopes e
]
