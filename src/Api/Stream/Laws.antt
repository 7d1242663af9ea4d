-- ===== src/Api/Stream/Laws.antt =====
-- When the feed of an order ends, and when it never does.
use dinner_rush.Prelude.{
  ℕ, Bool, true, false, none, some, List, [], ◌∷◌, ◌++◌, ◌≡◌, ◌⊎◌, inl, inr, refl, arith, ◌∙◌, ◌+◌,
  ◌<◌, ◌≤◌, Option-cases, if◌then◌else◌,
}
use dinner_rush.OrderApi.{CartView, OrderRow}
use dinner_rush.Api.Stream.{
  Frame, Timer, Feed, opened, send, close, is_terminal, Read, threw, read, see_terminal, tick,
  Event, aborted, ticked, step, start_timer, run_events, run_feed,
}

-- Once it is closed, nothing that comes later changes the feed.
step_closed :
    (e : Event) (s : Feed)
    → s.closed ≡ true
    → (step e s).closed ≡ true
      × ((step e s).timer ≡ s.timer)
      × ((step e s).ended ≡ s.ended)
      × ((step e s).frames ≡ s.frames)
unfolding step tick send close see_terminal
step_closed aborted s h = rw h (refl, refl, refl, refl)
step_closed (ticked threw now) s h = (h, refl, refl, refl)
step_closed (ticked (read v) now) s h = elim (Option-cases v.order) [
  | inl e ↦ rw (e, tick) (ground arith)
  | inr (row, e) ↦ rw (e, tick) (ground arith)
]

-- A started feed ends when it closes, and its interval is cleared then and not before.
pub record IsRunning (s : Feed) : Type 0 where
  pub ended : s.ended ≡ s.closed
  pub cleared : s.timer ≡ (if s.closed then Timer.cleared else Timer.running)

step-IsRunning : (e : Event) (s : Feed) → IsRunning s → IsRunning (step e s)
unfolding step tick send close see_terminal
step-IsRunning aborted s h = ground (arith, h.ended, h.cleared)
step-IsRunning (ticked threw now) s h = h
step-IsRunning (ticked (read v) now) s h = elim (Option-cases v.order) [
  | inl e ↦ rw (e, tick) (ground (arith, h.ended, h.cleared))
  | inr (row, e) ↦ rw (e, tick) (ground (arith, h.ended, h.cleared))
]

run_events-IsRunning : (es : List Event) (s : Feed) → IsRunning s → IsRunning (run_events es s)
unfolding run_events
run_events-IsRunning [] s h = h
run_events-IsRunning (e ∷ es) s h = run_events-IsRunning es (step e s) (step-IsRunning e s h)

-- After a feed is closed, whatever comes, it stays as it is, and no frame is sent any more.
run_events_closed :
    (es : List Event) (s : Feed)
    → s.closed ≡ true
    → let u = run_events es s in
      (u.closed ≡ true) × (u.timer ≡ s.timer) × (u.ended ≡ s.ended) × (u.frames ≡ s.frames)
unfolding run_events
run_events_closed [] s h = (h, refl, refl, refl)
run_events_closed (e ∷ es) s h =
    let (closed, timer, ended, frames) = step_closed e s h in
    let (closed', timer', ended', frames') = run_events_closed es (step e s) closed in
    (closed', timer' ∙ timer, ended' ∙ ended, frames' ∙ frames)

-- The first read finds no order.
abbrev pub IsMissing : Read → Type 0
IsMissing threw = ⊥
IsMissing (read v) = v.order ≡ none

first_tick_open :
    (first : Read) (now : ℕ) → ¬ IsMissing first → IsRunning (start_timer (tick first now opened))
unfolding tick send close see_terminal start_timer
first_tick_open threw now n = record { ended = refl; cleared = refl }
first_tick_open (read v) now n = elim (Option-cases v.order) [
  | inl e ↦ absurd (n e)
  | inr (row, e) ↦ rw (e, tick) (ground arith)
]

-- A feed whose client is there for the first read, and whose first read finds an order or fails, ends
-- exactly when it closes, and clears its interval then and not before, whatever comes.
pub run_feed-IsRunning :
    (first : Read) (now : ℕ) (es : List Event)
    → ¬ IsMissing first
    → IsRunning (run_feed false first now es)
unfolding run_feed
run_feed-IsRunning first now es n =
    run_events-IsRunning es (start_timer (tick first now opened)) (first_tick_open first now n)

IsStuck : Feed → Type 0
IsStuck s = (s.closed ≡ true) × (s.timer ≡ Timer.running) × (s.ended ≡ false)

IsStuck-start :
    (left : Bool) (first : Read) (now : ℕ)
    → (left ≡ true) ⊎ IsMissing first
    → IsStuck (start_timer (tick first now (if left then close opened else opened)))
unfolding IsStuck tick send close see_terminal start_timer
IsStuck-start true threw now h = (refl, refl, refl)
IsStuck-start false threw now h = ground arith
IsStuck-start true (read v) now h = elim (Option-cases v.order) [
  | inl e ↦ rw (e, tick) (ground arith)
  | inr (row, e) ↦ rw (e, tick) (ground arith)
]
IsStuck-start false (read v) now (inl h) = absurd (cc)
IsStuck-start false (read v) now (inr h) = rw (h, tick) (ground arith)

-- A feed whose client leaves during the first read, or whose first read finds no order, is never
-- ended: it is closed before the interval exists, so the interval then runs for good, whatever comes.
pub run_feed_stuck :
    (left : Bool) (first : Read) (now : ℕ) (es : List Event)
    → (left ≡ true) ⊎ IsMissing first
    → let u = run_feed left first now es in
      (u.closed ≡ true) × (u.timer ≡ Timer.running) × (u.ended ≡ false)
unfolding run_feed IsStuck
run_feed_stuck left first now es h =
    let s = start_timer (tick first now (if left then close opened else opened)) in
    let (closed, timer, ended) = IsStuck-start left first now h in
    let (closed', timer', ended', _) = run_events_closed es s closed in
    (closed', timer' ∙ timer, ended' ∙ ended)

tick_found :
    (s : Feed) (v : CartView) (row : OrderRow) (now : ℕ)
    → v.order ≡ some row
    → is_terminal row.status ≡ true
    → tick (read v) now s ≡ see_terminal now (send (Frame.view v) s)
unfolding tick
tick_found s v row now e t = ground (arith, e, t)

-- The moment at which the first terminal status was seen: once it is noted, no event moves it.
see_terminal_kept :
    (now : ℕ) (s : Feed)
    → 1 ≤ s.terminal_seen_at
    → (see_terminal now s).terminal_seen_at ≡ s.terminal_seen_at
unfolding see_terminal close
see_terminal_kept now s h = ground (arith, h)

close_kept : (s : Feed) → (close s).terminal_seen_at ≡ s.terminal_seen_at
unfolding close
close_kept s = ground arith

send_kept : (f : Frame) (s : Feed) → (send f s).terminal_seen_at ≡ s.terminal_seen_at
unfolding send
send_kept f s = ground arith

step_kept :
    (e : Event) (s : Feed)
    → 1 ≤ s.terminal_seen_at
    → (step e s).terminal_seen_at ≡ s.terminal_seen_at
unfolding step tick
step_kept aborted s h = close_kept s
step_kept (ticked threw now) s h = refl
step_kept (ticked (read v) now) s h = elim (Option-cases v.order) [
  | inl gone ↦ rw (gone, tick) (close_kept (send Frame.not_found s) ∙ send_kept Frame.not_found s)
  | inr (row, found) ↦
      let sent = send_kept (Frame.view v) s in
      rw (found, tick) (ground (arith, sent, h, see_terminal_kept now (send (Frame.view v) s)))
]

run_events_kept :
    (es : List Event) (s : Feed)
    → 1 ≤ s.terminal_seen_at
    → (run_events es s).terminal_seen_at ≡ s.terminal_seen_at
unfolding run_events
run_events_kept [] s h = refl
run_events_kept (e ∷ es) s h =
    let same = step_kept e s h in run_events_kept es (step e s) (rw same h) ∙ same

run_events-append :
    (es fs : List Event) (s : Feed) → run_events (es ++ fs) s ≡ run_events fs (run_events es s)
unfolding run_events
run_events-append [] fs s = refl
run_events-append (e ∷ es) fs s = run_events-append es fs (step e s)

-- A terminal status is noted, with the time of the first one.
terminal_noted :
    (s : Feed) (f : Frame) (now : ℕ)
    → s.terminal_seen_at ≤ now
    → 1 ≤ now
    → let u = see_terminal now (send f s) in (1 ≤ u.terminal_seen_at) × (u.terminal_seen_at ≤ now)
unfolding send see_terminal close
terminal_noted s f now h p = ground (arith, h, p)

terminal_late :
    (s : Feed) (f : Frame) (after : ℕ)
    → 1 ≤ s.terminal_seen_at
    → s.terminal_seen_at + 2500 < after
    → IsRunning s
    → let u = see_terminal after (send f s) in (u.closed ≡ true) × (u.ended ≡ true)
unfolding send close see_terminal
terminal_late s f after n l r = ground (arith, n, l, r.ended, r.cleared)

-- In a running feed, a tick that finds the order in a terminal status, then any events, and then a tick
-- that finds it so more than 2500 ms after the first: at the end the feed is closed and ended. The clock
-- is past 0, and a terminal status that was noted before the first tick is not noted with a later time.
pub terminal_closes :
    (s : Feed) (v w : CartView) (row later : OrderRow) (now after : ℕ) (es : List Event)
    → v.order ≡ some row
    → w.order ≡ some later
    → is_terminal row.status ≡ true
    → is_terminal later.status ≡ true
    → s.terminal_seen_at ≤ now
    → 1 ≤ now
    → now + 2500 < after
    → IsRunning s
    → let u = run_events (ticked (read v) now ∷ es ++ ticked (read w) after ∷ []) s in
      (u.closed ≡ true) × (u.ended ≡ true)
unfolding run_events step
terminal_closes s v w row later now after es e f t t' z p q r =
    let first = step (ticked (read v) now) s in
    let (noted, early) : (1 ≤ first.terminal_seen_at) × (first.terminal_seen_at ≤ now) =
      rw (tick_found s v row now e t) (terminal_noted s (Frame.view v) now z p) in
    let waiting = run_events es first in
    let kept = run_events_kept es first noted in
    let running = run_events-IsRunning es first (step-IsRunning (ticked (read v) now) s r) in
    rw (run_events-append es (ticked (read w) after ∷ []) first) (
      rw (tick_found waiting w later after f t') (
        terminal_late waiting (Frame.view w) after (rw kept noted) (omega (arith, kept, early, q))
          running))
