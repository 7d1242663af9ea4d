-- ===== src/Pipeline/System.antt =====
-- The orchestrator as a whole, services/orchestrator/app/main.py: deliveries in any weather, rounds of the
-- relay, expiries in the retry queue and replays of the parked messages, in any order.
mod Tests
use dinner_rush.Prelude.{
  ℕ, ◌≤◌, Bool, true, false, String, List, [], ◌∷◌, Option, some, ◌≡◌, refl, sym, subst, ap, ◌∙◌,
  length, Bool-cases, inl, inr,
}
use dinner_rush.Prelude.Maps.{lookup}
use dinner_rush.Pipeline.States.{is_terminal}
use dinner_rush.Pipeline.Models.{Envelope}
use dinner_rush.Pipeline.Store.{Db, OrderRow, Outgoing, empty, insert_placed}
use dinner_rush.Pipeline.Store.Calls.{run_calls, placing, run_call}
use dinner_rush.Pipeline.Store.Commands.{envelopes, commanded-envelopes, told-envelopes}
use dinner_rush.Pipeline.Store.Laws.{IsStore, run_calls-IsStore, run_call-IsStore, empty-IsStore}
use dinner_rush.Pipeline.Store.Lifecycle.{IsLifecycle, IsStore-IsLifecycle}
use dinner_rush.Pipeline.Broker.{Body, envelope, poison, no_queues, expire, replay_dlq}
use dinner_rush.Pipeline.Relay.{drain_once}
use dinner_rush.Pipeline.Relay.Laws.{drain_once-envelopes}
use dinner_rush.Pipeline.Orchestrator.{World, Weather, on_advance, on_placed, placed_data}
use dinner_rush.Pipeline.Orchestrator.Safety.{on_advance-IsSafe, on_placed-IsStore}

-- A delivery may bring any message: one that was delivered before, or one that never was sent.
pub data Step : Type 0 where
  delivers : Weather → Body → Step
  places : Weather → Bool → Body → Step
  relays : ℕ → (ℕ → Bool) → Step
  expires : Step
  replays : ℕ → Step

pub run_step : Step → World → World
run_step (delivers t body) w = (on_advance t body w).0
run_step (places t redelivered body) w = (on_placed t redelivered body w).0
run_step (relays batch confirms) w =
    let (outbox, queues) = (drain_once batch confirms (w.db.outbox, w.queues)).0 in
    record w { db = record w.db { outbox = outbox }; queues = queues }
run_step expires w = record w { queues = expire w.queues }
run_step (replays limit) w = record w { queues = (replay_dlq limit 0 w.queues).0 }

pub run_steps : List Step → World → World
unfolding run_step
run_steps [] w = w
run_steps (s ∷ ss) w = run_steps ss (run_step s w)

abbrev pub started : World
started = record { db = empty; queues = no_queues; done = [] }

relayed-IsStore :
    (outbox : List Outgoing) (db : Db)
    → envelopes outbox ≡ envelopes db.outbox
    → IsStore db
    → IsStore (record db { outbox = outbox })
relayed-IsStore outbox db e h = record {
  history = record { histories = h.history.histories; claims = h.history.claims };
  events_told = told-envelopes outbox db.outbox e ∙ h.events_told;
  driven = λ id row found live.
      commanded-envelopes id row.state outbox db.outbox e ∙ h.driven id row found live;
}

run_step-IsStore : (s : Step) (w : World) → IsStore w.db → IsStore (run_step s w).db
unfolding run_step
run_step-IsStore (delivers t body) w h =
    let k = on_advance-IsSafe t body w h in
    let (cs, e) = k.reaches in subst IsStore (sym e) (run_calls-IsStore cs w.db h)
run_step-IsStore (places t redelivered body) w h = on_placed-IsStore t redelivered body w h
run_step-IsStore (relays batch confirms) w h =
    relayed-IsStore (drain_once batch confirms (w.db.outbox, w.queues)).0.0 w.db
      (drain_once-envelopes batch confirms w.db.outbox w.queues) h
run_step-IsStore expires w h = h
run_step-IsStore (replays limit) w h = h

run_steps-IsStore : (ss : List Step) (w : World) → IsStore w.db → IsStore (run_steps ss w).db
unfolding run_steps
run_steps-IsStore [] w h = h
run_steps-IsStore (s ∷ ss) w h = run_steps-IsStore ss (run_step s w) (run_step-IsStore s w h)

-- Whatever the orchestrator receives and whatever fails around it: the transitions of an order lead from
-- `placed` to its state along allowed transitions, they are at most five, and while the order is not in a
-- terminal state its outbox holds the command that drives it on from there.
pub run_steps-IsLifecycle :
    (ss : List Step) (id : String) (row : OrderRow)
    → lookup id (run_steps ss started).db.orders ≡ some row
    → IsLifecycle id row (run_steps ss started).db
run_steps-IsLifecycle ss id row found =
    IsStore-IsLifecycle id row (run_steps ss started).db found
      (run_steps-IsStore ss started empty-IsStore)
