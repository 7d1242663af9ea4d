-- ===== src/Dashboard/Controls.antt =====
-- The dashboard's controls: the calls of web/src/api.ts, and the busy state of
-- web/src/components/ActionButton.tsx.
use dinner_rush.Prelude.{
  ℕ, ◌+◌, ◌-◌, ◌≤◌, String, Bool, true, false, Option, get_or, List, [], ◌∷◌, ◌++◌, ◌≡◌, refl,
  str_eq, if◌then◌else◌, ◌==◌, ◌&&◌, leb, ltb, arith,
}
use dinner_rush.Prelude.Text.{◌+s◌, decimal}
use dinner_rush.OrderApi.{Outcome, ok, error}

data Action : Type 0 where
  rush baseline stop : Action
  set_rate : ℕ → Action
  payment_down payment_up restaurant_down restaurant_up courier_down courier_up : Action
  replay_dlq : ℕ → Action

-- The path of a control; a whole number is its own URI component.
action_path : Action → String
action_path rush = "/control/load/rush"
action_path baseline = "/control/load/baseline"
action_path stop = "/control/load/stop"
action_path (set_rate rps) = "/control/load/rate?rps=" +s decimal rps
action_path payment_down = "/control/downstream/payment/down"
action_path payment_up = "/control/downstream/payment/up"
action_path restaurant_down = "/control/downstream/restaurant/down"
action_path restaurant_up = "/control/downstream/restaurant/up"
action_path courier_down = "/control/downstream/courier/down"
action_path courier_up = "/control/downstream/courier/up"
action_path (replay_dlq limit) = "/admin/replay-dlq?limit=" +s decimal limit

-- What the `fetch` of a control comes back with: an exception, or a status, its text, and the text of
-- the body, `none` where reading that throws.
data Answer : Type 0 where
  thrown : String → Answer
  status : ℕ → String → Option String → Answer

control_error : ℕ → String → String → String
control_error code status_text body =
    if str_eq body "" then decimal code +s " " +s status_text else body

control : Answer → Outcome Bool
unfolding control_error
control (thrown message) = error message
control (status code status_text body) =
    if leb 200 code && leb code 299
    then ok true
    else error (control_error code status_text (get_or body ""))

-- The button: its flag, the calls that have not come back, the timers that will clear the flag, and
-- the messages that were handed to `onError`.
record Button : Type 0 where
  busy : Bool
  calls : ℕ
  timers : ℕ
  errors : List String

idle : Button
idle = record { busy = false; calls = 0; timers = 0; errors = [] }

data Event : Type 0 where
  pressed : Event
  answered : Outcome Bool → Event
  timed_out : Event

-- The calls that are answered and the timers that run out are ones that were started.
step : Event → Button → Button
step pressed b = if b.busy then b else record b { busy = true; calls = b.calls + 1 }
step (answered (ok _)) b =
    if b.calls == 0 then b else record b { calls = b.calls - 1; timers = b.timers + 1 }
step (answered (error message)) b =
    if b.calls == 0
    then b
    else record b { calls = b.calls - 1; timers = b.timers + 1; errors = b.errors ++ message ∷ [] }
step timed_out b = if b.timers == 0 then b else record b { busy = false; timers = b.timers - 1 }

run_button : List Event → Button → Button
unfolding step
run_button [] b = b
run_button (e ∷ es) b = run_button es (step e b)

record IsButton (b : Button) : Type 0 where
  one : b.calls + b.timers ≤ 1
  flag : b.busy ≡ ltb 0 (b.calls + b.timers)

step-IsButton : (e : Event) (b : Button) → IsButton b → IsButton (step e b)
unfolding step
step-IsButton pressed b h = ground (arith, h.one, h.flag)
step-IsButton (answered (ok x)) b h = ground (arith, h.one, h.flag)
step-IsButton (answered (error m)) b h = ground (arith, h.one, h.flag)
step-IsButton timed_out b h = ground (arith, h.one, h.flag)

run_button-IsButton : (es : List Event) (b : Button) → IsButton b → IsButton (run_button es b)
unfolding run_button
run_button-IsButton [] b h = h
run_button-IsButton (e ∷ es) b h = run_button-IsButton es (step e b) (step-IsButton e b h)

-- Whatever is pressed and answered, a control has at most one call under way, and its flag is set
-- exactly from a press until the timer after its answer.
idle-IsButton : (es : List Event) → IsButton (run_button es idle)
unfolding idle
idle-IsButton es = run_button-IsButton es idle (record { one = omega arith; flag = refl })
