-- ===== src/Pipeline/States.antt =====
-- The lifecycle of an order, libs/drcommon/drcommon/states.py.
use dinner_rush.Prelude.{
  ℕ, ◌+◌, ◌<◌, ◌≤◌, String, Bool, true, false, Option, none, some, List, [], ◌∷◌, ◌≡◌, refl, ltb,
  if◌then◌else◌, length, get_elem?, any, arith, ◌==◌, str_eq,
}

pub data State : Type 0 where
  placed confirmed preparing ready out_for_delivery delivered cancelled failed : State

unfoldable pub value : State → String
value placed = "placed"
value confirmed = "confirmed"
value preparing = "preparing"
value ready = "ready"
value out_for_delivery = "out_for_delivery"
value delivered = "delivered"
value cancelled = "cancelled"
value failed = "failed"

-- `State(text)`; `none` stands for the `ValueError`.
unfoldable pub of_value : String → Option State
of_value v =
    if str_eq v "placed"
    then some placed
    else if str_eq v "confirmed"
    then some confirmed
    else if str_eq v "preparing"
    then some preparing
    else if str_eq v "ready"
    then some ready
    else if str_eq v "out_for_delivery"
    then some out_for_delivery
    else if str_eq v "delivered"
    then some delivered
    else if str_eq v "cancelled"
    then some cancelled
    else if str_eq v "failed"
    then some failed
    else none

pub of_value-value : (s : State) → of_value (value s) ≡ some s
unfolding value of_value
of_value-value placed = refl
of_value-value confirmed = refl
of_value-value preparing = refl
of_value-value ready = refl
of_value-value out_for_delivery = refl
of_value-value delivered = refl
of_value-value cancelled = refl
of_value-value failed = refl

-- The code of a state, which tells states apart.
abbrev pub code : State → ℕ
code placed = 0
code confirmed = 1
code preparing = 2
code ready = 3
code out_for_delivery = 4
code delivered = 5
code cancelled = 6
code failed = 7

abbrev pub same : State → State → Bool
same s t = code s == code t

abbrev happy_path : List State
happy_path = placed ∷ confirmed ∷ preparing ∷ ready ∷ out_for_delivery ∷ delivered ∷ []

abbrev terminal_states : List State
terminal_states = delivered ∷ cancelled ∷ failed ∷ []

abbrev allowed : State → List State
allowed placed = confirmed ∷ cancelled ∷ failed ∷ []
allowed confirmed = preparing ∷ cancelled ∷ failed ∷ []
allowed preparing = ready ∷ cancelled ∷ failed ∷ []
allowed ready = out_for_delivery ∷ failed ∷ []
allowed out_for_delivery = delivered ∷ failed ∷ []
allowed delivered = []
allowed cancelled = []
allowed failed = []

abbrev pub can_transition : State → State → Bool
can_transition frm to = any (same to) (allowed frm)

abbrev pub is_terminal : State → Bool
is_terminal state = any (same state) terminal_states

-- `HAPPY_PATH.index(state)`, counted from `i`; `none` stands for the `ValueError`.
abbrev index_from : ℕ → State → List State → Option ℕ
index_from i s [] = none
index_from i s (t ∷ ts) = let rest = index_from (i + 1) s ts in if same s t then some i else rest

abbrev pub next_happy_state : State → Option State
next_happy_state state = elim (index_from 0 state happy_path) [
  | none ↦ none
  | some idx ↦ if ltb (idx + 1) (length happy_path) then get_elem? happy_path (idx + 1) else none
]

abbrev pub stage_downstream : State → Option String
stage_downstream confirmed = some "payment"
stage_downstream preparing = some "restaurant"
stage_downstream out_for_delivery = some "courier"
stage_downstream _ = none

pub same→eq : (s t : State) → same s t ≡ true → s ≡ t
same→eq s t h = ground arith

pub same_refl : (s : State) → same s s ≡ true
same_refl s = ground arith

-- What the tables promise: the happy path makes allowed transitions only, it goes on from a state exactly
-- when the state is not terminal, and no transition leaves a terminal state.
pub next_happy_state_lem :
    (s t : State)
    → next_happy_state s ≡ some t
    → (can_transition s t ≡ true) × (is_terminal s ≡ false)
next_happy_state_lem s t h = ground arith

pub next_or_terminal :
    (s : State) → (is_terminal s ≡ false) → (t : State) × (next_happy_state s ≡ some t)
next_or_terminal placed h = (confirmed, refl)
next_or_terminal confirmed h = (preparing, refl)
next_or_terminal preparing h = (ready, refl)
next_or_terminal ready h = (out_for_delivery, refl)
next_or_terminal out_for_delivery h = (delivered, refl)
next_or_terminal delivered h = absurd (cc)
next_or_terminal cancelled h = absurd (cc)
next_or_terminal failed h = absurd (cc)

-- A walk along transitions from a state, as a list of the states that are entered.
abbrev pub IsWalk : State → List State → Type 0
IsWalk s [] = Unit
IsWalk s (t ∷ ts) = (can_transition s t ≡ true) × IsWalk t ts

-- How many transitions are left at most.
abbrev pub left_of : State → ℕ
left_of placed = 5
left_of confirmed = 4
left_of preparing = 3
left_of ready = 2
left_of out_for_delivery = 1
left_of _ = 0

pub left_of-can_transition : (s t : State) → can_transition s t ≡ true → left_of t < left_of s
left_of-can_transition s t h = ground arith

length-IsWalk : (s : State) (ts : List State) → IsWalk s ts → length ts ≤ left_of s
length-IsWalk s [] h = omega arith
length-IsWalk s (t ∷ ts) (c, h) = omega (arith, left_of-can_transition s t c, length-IsWalk t ts h)
