-- ===== src/Dashboard.antt =====
-- The operator's dashboard, web/src: the snapshots of types.ts, the address of each control of api.ts,
-- and the state of App.tsx: the last snapshot, the history of the chart, and the connection's status.
mod Tests
mod Controls
mod Panels
use mathlib.Core.List.{append_assoc, append-nil}
use dinner_rush.Prelude.{
  ℕ, zero, suc, ◌+◌, ◌-◌, ◌≤◌, ◌<◌, String, Bool, false, Option, none, List, [], ◌∷◌, ◌++◌, ◌≡◌,
  refl, ◌∙◌, ap, sym, if◌then◌else◌, length, length-append, length-drop, drop, ltb, ◌==◌, arith,
  Bool-cases, inl, inr,
}

record DownstreamHealth : Type 0 where
  breaker : String  -- a state of the breaker, or any other text
  error_rate : ℕ
  avg_latency_ms : ℕ
  down : Bool

record States : Type 0 where
  placed : ℕ
  confirmed : ℕ
  preparing : ℕ
  ready : ℕ
  out_for_delivery : ℕ
  delivered : ℕ
  cancelled : ℕ
  failed : ℕ

record Totals : Type 0 where
  ingested : ℕ
  delivered : ℕ
  failed : ℕ
  cancelled : ℕ
  in_flight : ℕ

-- A rate is kept in hundredths, which is what `toFixed(2)` leaves of it.
record Snapshot : Type 0 where
  ts : Option String
  states : States
  totals : Totals
  ingest_per_sec : ℕ
  deliver_per_sec : ℕ
  broker_retries : ℕ
  dlq_depth : ℕ
  advance_queue : ℕ
  retry_queue : ℕ
  dlq_queue : ℕ
  payment : DownstreamHealth
  restaurant : DownstreamHealth
  courier : DownstreamHealth
  mode : String
  target_rps : ℕ
  current_rps : Option ℕ
  sent : ℕ
  orchestrator_up : Bool

record HistoryPoint : Type 0 where
  t : ℕ
  label : String
  ingest : ℕ
  deliver : ℕ

data ConnStatus : Type 0 where
  connecting live down : ConnStatus

abbrev unknown_health : DownstreamHealth
unknown_health = record { breaker = "unknown"; error_rate = 0; avg_latency_ms = 0; down = false }

abbrev empty_snapshot : Snapshot
empty_snapshot = record {
  ts = none;
  states = record {
    placed = 0;
    confirmed = 0;
    preparing = 0;
    ready = 0;
    out_for_delivery = 0;
    delivered = 0;
    cancelled = 0;
    failed = 0;
  };
  totals = record { ingested = 0; delivered = 0; failed = 0; cancelled = 0; in_flight = 0 };
  ingest_per_sec = 0;
  deliver_per_sec = 0;
  broker_retries = 0;
  dlq_depth = 0;
  advance_queue = 0;
  retry_queue = 0;
  dlq_queue = 0;
  payment = unknown_health;
  restaurant = unknown_health;
  courier = unknown_health;
  mode = "unknown";
  target_rps = 0;
  current_rps = none;
  sent = 0;
  orchestrator_up = false;
}

abbrev history_len : ℕ
history_len = 60

abbrev stale_ms : ℕ
stale_ms = 4000

record App : Type 0 where
  snap : Snapshot
  history : List HistoryPoint
  conn : ConnStatus
  last_msg_at : ℕ

abbrev started : App
started = record {
  snap = empty_snapshot;
  history = [];
  conn = ConnStatus.connecting;
  last_msg_at = 0;
}

-- `label` is the text of the clock for the snapshot's time, `tsLabel`.
abbrev point_of : Snapshot → ℕ → String → HistoryPoint
point_of s now label = record {
  t = now;
  label = label;
  ingest = s.ingest_per_sec;
  deliver = s.deliver_per_sec;
}

-- The updater of the history.
push_point : HistoryPoint → List HistoryPoint → List HistoryPoint
push_point point prev =
    let next = prev ++ point ∷ [] in
    if ltb history_len (length next) then drop (length next - history_len) next else next

push_snapshot : Snapshot → ℕ → String → App → App
unfolding push_point
push_snapshot s now label app = record {
  snap = s;
  history = push_point (point_of s now label) app.history;
  conn = ConnStatus.live;
  last_msg_at = now;
}

-- One round of the staleness watchdog.
watch : ℕ → App → App
watch now app =
    if app.last_msg_at == 0
    then app
    else if ltb stale_ms (now - app.last_msg_at)
    then elim app.conn [
      | ConnStatus.live ↦ record app { conn = ConnStatus.down }
      | ConnStatus.down ↦ app
      | ConnStatus.connecting ↦ app
    ]
    else app

-- A snapshot, of the first request or the stream; the stream opened; it failed; a round of the watchdog.
data Event : Type 0 where
  snapshot : Snapshot → ℕ → String → Event
  opened errored : Event
  watched : ℕ → Event

step : Event → App → App
unfolding push_snapshot watch
step (snapshot s now label) app = push_snapshot s now label app
step opened app = record app { conn = ConnStatus.live }
step errored app = record app { conn = ConnStatus.down }
step (watched now) app = watch now app

run_app : List Event → App → App
unfolding step
run_app [] app = app
run_app (e ∷ es) app = run_app es (step e app)

points : List Event → List HistoryPoint
points [] = []
points (snapshot s now label ∷ es) = point_of s now label ∷ points es
points (opened ∷ es) = points es
points (errored ∷ es) = points es
points (watched now ∷ es) = points es

last_60 : List HistoryPoint → List HistoryPoint
last_60 xs = drop (length xs - 60) xs

drop-append :
    (k : ℕ) (xs ys : List HistoryPoint) → k ≤ length xs → drop k (xs ++ ys) ≡ drop k xs ++ ys
drop-append zero xs ys h = refl
drop-append (suc k) [] ys h = absurd (omega (arith, h))
drop-append (suc k) (x ∷ xs) ys h = drop-append k xs ys (omega (arith, h))

drop-drop : (k : ℕ) (xs : List HistoryPoint) → drop 1 (drop k xs) ≡ drop (suc k) xs
drop-drop zero xs = refl
drop-drop (suc k) [] = refl
drop-drop (suc k) (x ∷ xs) = drop-drop k xs

push_point_room :
    (p : HistoryPoint) (xs : List HistoryPoint) → length xs < 60 → push_point p xs ≡ xs ++ p ∷ []
unfolding push_point
push_point_room p xs h = ground (arith, h, length-append {0} xs (p ∷ []))

watch-history : (now : ℕ) (app : App) → (watch now app).history ≡ app.history
unfolding watch
watch-history now app = ground arith

push_point_full :
    (p : HistoryPoint) (k : ℕ) (xs : List HistoryPoint)
    → length xs ≡ k + 60
    → push_point p (drop k xs) ≡ drop (suc k) (xs ++ p ∷ [])
unfolding push_point
push_point_full p k xs e =
    let next = drop-append k xs (p ∷ []) (omega (arith, e)) in
    let long : length (drop k (xs ++ p ∷ [])) ≡ 61 =
      omega (arith, e, length-drop {0} k (xs ++ p ∷ []), length-append {0} xs (p ∷ [])) in
    rw (sym next) (rw long (drop-drop k (xs ++ p ∷ [])))

push_point-last_60 :
    (p : HistoryPoint) (xs : List HistoryPoint) → push_point p (last_60 xs) ≡ last_60 (xs ++ p ∷ [])
unfolding last_60
push_point-last_60 p xs = elim (Bool-cases (ltb (length xs) 60)) [
  | inl room ↦
      let all_ : length xs - 60 ≡ 0 = ground (arith, room) in
      let grown : length (xs ++ p ∷ []) - 60 ≡ 0 =
        ground (arith, room, length-append {0} xs (p ∷ [])) in
      rw (all_, grown) (push_point_room p xs (ground (arith, room)))
  | inr full ↦
      let cut : length (xs ++ p ∷ []) - 60 ≡ suc (length xs - 60) =
        ground (arith, full, length-append {0} xs (p ∷ [])) in
      rw cut (push_point_full p (length xs - 60) xs (ground (arith, full)))
]

run_app-kept :
    (es : List Event) (app : App) (xs : List HistoryPoint)
    → app.history ≡ last_60 xs
    → (run_app es app).history ≡ last_60 (xs ++ points es)
unfolding run_app step push_snapshot points watch
run_app-kept [] app xs h = h ∙ ap last_60 (sym (append-nil xs))
run_app-kept (snapshot s now label ∷ es) app xs h =
    let p = point_of s now label in
    run_app-kept es (push_snapshot s now label app) (xs ++ p ∷ [])
      (ap (push_point p) h ∙ push_point-last_60 p xs)
    ∙ ap last_60 (append_assoc xs (p ∷ []) (points es))
run_app-kept (opened ∷ es) app xs h = run_app-kept es (record app { conn = ConnStatus.live }) xs h
run_app-kept (errored ∷ es) app xs h = run_app-kept es (record app { conn = ConnStatus.down }) xs h
run_app-kept (watched now ∷ es) app xs h =
    run_app-kept es (watch now app) xs (watch-history now app ∙ h)

-- The chart shows the latest sixty snapshots, in the order of their arrival, whatever else happens in
-- between; so its history never grows beyond that.
run_app-history :
    (es : List Event)
    → ((run_app es started).history ≡ last_60 (points es))
      × (length (run_app es started).history ≤ 60)
unfolding last_60
run_app-history es =
    let kept = run_app-kept es started [] refl in
    (
      kept,
      omega (arith, ap (length {0}) kept, length-drop {0} (length (points es) - 60) (points es)),
    )
