-- ===== src/Pipeline/Relay.antt =====
-- The relay of the outbox, `OutboxRelay` of libs/drcommon/drcommon/outbox.py: one round, and rounds.
pub mod Laws
mod Tests
use dinner_rush.Prelude.{
  ℕ, zero, suc, ◌+◌, Bool, true, false, not, List, [], ◌∷◌, if◌then◌else◌, filter, take, length,
}
use dinner_rush.Pipeline.Store.{Outgoing}
use dinner_rush.Pipeline.Broker.{Queues, publish_envelope}

abbrev pub pending : List Outgoing → List Outgoing
pending rows = filter (λ o. not o.published) rows

-- The loop over the rows of a batch: each publish is confirmed, or raises and ends the loop.
pub publish_rows : (ℕ → Bool) → ℕ → List Outgoing → Queues → Queues × Bool
unfolding publish_envelope
publish_rows confirms i [] q = (q, true)
publish_rows confirms i (o ∷ rows) q =
    let rest = publish_rows confirms (i + 1) rows (publish_envelope o.exchange o.envelope q) in
    if confirms i then rest else (q, false)

-- `UPDATE outbox SET published_at = now() WHERE id = ANY(…)`, for the first pending rows.
pub stamp : ℕ → List Outgoing → List Outgoing
stamp zero rows = rows
stamp (suc n) [] = []
stamp (suc n) (o ∷ rows) =
    let on = stamp (suc n) rows in
    let off = stamp n rows in if o.published then o ∷ on else record o { published = true } ∷ off

-- A round whose loop raises is rolled back: what it has published stays published, and no row is stamped.
pub drain_once : ℕ → (ℕ → Bool) → List Outgoing × Queues → (List Outgoing × Queues) × ℕ
unfolding publish_rows stamp
drain_once batch confirms (rows, q) =
    let selected = take batch (pending rows) in
    let (q', ok) = publish_rows confirms 0 selected q in
    if ok then ((stamp batch rows, q'), length selected) else ((rows, q'), 0)

-- Rounds in which the broker confirms everything.
pub drain_rounds : ℕ → ℕ → List Outgoing × Queues → List Outgoing × Queues
unfolding drain_once
drain_rounds zero batch s = s
drain_rounds (suc n) batch s = drain_rounds n batch (drain_once batch (λ i. true) s).0
