-- ===== src/Dashboard/Tests.antt =====
-- A stream that opens, sends a snapshot, and falls silent.
use dinner_rush.Prelude.{◌≤◌, List, [], ◌∷◌, ◌≡◌, length}
use dinner_rush.Dashboard.{
  Event, snapshot, opened, watched, empty_snapshot, started, run_app, points, last_60,
  run_app-history,
}

abbrev events : List Event
events = opened ∷ snapshot empty_snapshot 1000 "12:00:00" ∷ watched 6000 ∷ []

run_app-history_example :
    ((run_app events started).history ≡ last_60 (points events))
    × (length (run_app events started).history ≤ 60)
run_app-history_example = run_app-history events
