-- ===== src/Pipeline/Broker.antt =====
-- The broker's queues, libs/drcommon/drcommon/broker.py. An exchange is the queue that is bound to it, with
-- the newest message last; a `publish` that the broker does not confirm raises, and is the caller's case.
mod Laws
mod Tests
use dinner_rush.Prelude.{ℕ, zero, suc, ◌+◌, List, [], ◌∷◌, ◌++◌}
use dinner_rush.Pipeline.Models.{Envelope}
use dinner_rush.Pipeline.Store.{Exchange, events, work, retry, dlx}

-- A message's body, by what `Envelope.from_bytes` makes of it.
pub data Body : Type 0 where
  envelope : Envelope → Body
  poison : Body

pub record Queues : Type 0 where
  pub advances : List Body
  pub retries : List Envelope
  pub parked : List Body
  pub announced : List Envelope

abbrev pub no_queues : Queues
no_queues = record { advances = []; retries = []; parked = []; announced = [] }

unfoldable pub publish_envelope : Exchange → Envelope → Queues → Queues
publish_envelope events env q = record q { announced = q.announced ++ env ∷ [] }
publish_envelope work env q = record q { advances = q.advances ++ envelope env ∷ [] }
publish_envelope retry env q = record q { retries = q.retries ++ env ∷ [] }
publish_envelope dlx env q = record q { parked = q.parked ++ envelope env ∷ [] }

unfoldable pub schedule_retry : Envelope → Queues → Queues
unfolding publish_envelope
schedule_retry env q = publish_envelope retry (record env { attempt = env.attempt + 1 }) q

unfoldable pub send_to_dlq : Envelope → Queues → Queues
unfolding publish_envelope
send_to_dlq env q = publish_envelope dlx env q

unfoldable pub send_raw_to_dlq : Queues → Queues
send_raw_to_dlq q = record q { parked = q.parked ++ poison ∷ [] }

-- The first message of the retry queue dies there, and is dead-lettered to the work exchange.
pub expire : Queues → Queues
expire q = elim q.retries [
  | [] ↦ q
  | env ∷ rest ↦ record q { retries = rest; advances = q.advances ++ envelope env ∷ [] }
]

-- The loop of `replay_dlq`, and the number that it returns, where every publish and every `ack` succeeds.
pub replay_dlq : ℕ → ℕ → Queues → Queues × ℕ
replay_dlq zero moved q = (q, moved)
replay_dlq (suc limit) moved q = elim q.parked [
  | [] ↦ (q, moved)
  | poison ∷ rest ↦ replay_dlq limit moved (record q { parked = rest })
  | envelope env ∷ rest ↦ replay_dlq limit (moved + 1) (record q {
    parked = rest;
    advances = q.advances ++ envelope (record env { attempt = 1 }) ∷ [];
  })
]
