-- ===== src/Pipeline/Broker/Tests.antt =====
-- Two parked messages, one of them poison.
use dinner_rush.Prelude.{[], ◌∷◌}
use dinner_rush.Pipeline.States.{confirmed}
use dinner_rush.Pipeline.Store.{advance_command}
use dinner_rush.Pipeline.Broker.{Queues, envelope, poison, no_queues, replay_dlq}
use dinner_rush.Pipeline.Broker.Laws.{IsReplayed, replay_dlq-IsReplayed}

abbrev queues : Queues
queues = record no_queues {
  parked = poison ∷ envelope (record (advance_command "o1" confirmed) { attempt = 6 }) ∷ [];
}

replay_dlq-IsReplayed_example : IsReplayed 500 0 queues (replay_dlq 500 0 queues)
replay_dlq-IsReplayed_example = replay_dlq-IsReplayed 500 0 queues
