-- ===== src/Pipeline/Broker/Laws.antt =====
-- What a replay of the parked messages moves.
use mathlib.Core.List.{append_assoc, append-nil}
use dinner_rush.Prelude.{
  ℕ, zero, suc, ◌+◌, List, [], ◌∷◌, ◌++◌, ◌≡◌, refl, sym, ◌∙◌, Option, none, some, filter_map, take,
  drop, length, arith,
}
use dinner_rush.Pipeline.Models.{Envelope}
use dinner_rush.Pipeline.Broker.{Body, envelope, poison, Queues, replay_dlq}

abbrev renewed : Body → Option Body
renewed (envelope env) = some (envelope (record env { attempt = 1 }))
renewed poison = none

pub record IsReplayed (limit moved : ℕ) (q : Queues) (result : Queues × ℕ) : Type 0 where
  pub advances : result.0.advances ≡ q.advances ++ filter_map renewed (take limit q.parked)
  pub parked : result.0.parked ≡ drop limit q.parked
  pub counted : result.1 ≡ moved + length (filter_map renewed (take limit q.parked))
  pub retries : result.0.retries ≡ q.retries
  pub announced : result.0.announced ≡ q.announced

abbrev queues : List Body → List Envelope → List Body → List Envelope → Queues
queues advances retries parked announced = record {
  advances = advances;
  retries = retries;
  parked = parked;
  announced = announced;
}

replayed :
    (limit moved : ℕ) (a p : List Body) (r n : List Envelope)
    → IsReplayed limit moved (queues a r p n) (replay_dlq limit moved (queues a r p n))
unfolding replay_dlq
replayed zero moved a p r n = record {
  advances = sym (append-nil a);
  parked = refl;
  counted = omega arith;
  retries = refl;
  announced = refl;
}
replayed (suc limit) moved a [] r n = record {
  advances = sym (append-nil a);
  parked = refl;
  counted = omega arith;
  retries = refl;
  announced = refl;
}
replayed (suc limit) moved a (poison ∷ p) r n =
    let h = replayed limit moved a p r n in
    record {
      advances = h.advances;
      parked = h.parked;
      counted = h.counted;
      retries = h.retries;
      announced = h.announced;
    }
replayed (suc limit) moved a (envelope env ∷ p) r n =
    let h = replayed limit (moved + 1) (a ++ envelope (record env { attempt = 1 }) ∷ []) p r n in
    record {
      advances = h.advances ∙ append_assoc a (envelope (record env { attempt = 1 }) ∷ []) _;
      parked = h.parked;
      counted = omega (arith, h.counted);
      retries = h.retries;
      announced = h.announced;
    }

-- A replay takes the first parked messages, up to its limit: it puts the commands among them behind those
-- that wait, each with its first attempt ahead, in their order, drops the poison, and counts what it moved.
pub replay_dlq-IsReplayed :
    (limit moved : ℕ) (q : Queues) → IsReplayed limit moved q (replay_dlq limit moved q)
replay_dlq-IsReplayed limit moved q = replayed limit moved q.advances q.parked q.retries q.announced
