-- ===== src/Checkout/Wizard.antt =====
-- The steps and the default date of customer-web/src/app/checkout/checkout-flow.tsx.
use dinner_rush.Prelude.{
  ℕ, zero, suc, ◌+◌, ◌-◌, ◌%◌, ◌≤◌, ◌<◌, Bool, true, false, List, [], ◌∷◌, ◌≡◌, refl, if◌then◌else◌,
  leb, ltb, ◌==◌, ◌||◌, arith, min, ◌⊎◌, inl, inr, Bool-cases,
}
use dinner_rush.Prelude.Int.{ℤ, pos, negsuc}

abbrev last_step : ℕ
last_step = 3

record Wizard : Type 0 where
  step : ℕ
  direction : ℤ

go_next : Wizard → Wizard
go_next w = record { step = min last_step (w.step + 1); direction = pos 1 }

-- `Math.max(0, s - 1)`
go_back : Wizard → Wizard
go_back w = record { step = w.step - 1; direction = negsuc 0 }

go_to : ℕ → Wizard → Wizard
go_to i w =
    if i == w.step
    then w
    else record { step = i; direction = if ltb w.step i then pos 1 else negsuc 0 }

-- A press of a button: on, back, or one of the four steps of the stepper, in any order.
data Press : Type 0 where
  next back : Press
  jump : ℕ → Press

press : Press → Wizard → Wizard
unfolding go_next go_back go_to
press next w = go_next w
press back w = go_back w
press (jump i) w = if leb i last_step then go_to i w else w

presses : List Press → Wizard → Wizard
unfolding press
presses [] w = w
presses (p ∷ ps) w = presses ps (press p w)

-- `getDay` of a day so many days after one of weekday `today`, 0 for Sunday.
weekday : ℕ → ℕ → ℕ
weekday today days = (today + days) % 7

is_weekend : ℕ → Bool
is_weekend day = day == 0 || day == 6

-- The loop that goes on to the next day while it is a Saturday or a Sunday. Two rounds are enough.
skip_weekend : ℕ → ℕ → ℕ → ℕ
unfolding weekday is_weekend
skip_weekend zero today days = days
skip_weekend (suc fuel) today days =
    skip_weekend fuel today (if is_weekend (weekday today days) then days + 1 else days)

-- How many days ahead the default date is.
default_days : ℕ → ℕ
unfolding skip_weekend
default_days today = skip_weekend 2 today 5

-- The default date is five to seven days ahead, not on a weekend, and the first such day; so the loop
-- has ended.
default_days_lem :
    (today : ℕ)
    → let d = default_days today in
      (5 ≤ d)
      × (d ≤ 7)
      × (is_weekend (weekday today d) ≡ false)
      × ((k : ℕ) → 5 ≤ k → k < d → is_weekend (weekday today k) ≡ true)
unfolding default_days skip_weekend weekday is_weekend
default_days_lem today = (ground arith, ground arith, ground arith, λ k h l. ground (arith, h, l))

record IsWizard (w : Wizard) : Type 0 where
  on_page : w.step ≤ 3
  direction : (w.direction ≡ pos 1) ⊎ (w.direction ≡ negsuc 0)

press-IsWizard : (p : Press) (w : Wizard) → IsWizard w → IsWizard (press p w)
unfolding press
press-IsWizard next w h = record { on_page = omega arith; direction = inl refl }
press-IsWizard back w h = record { on_page = omega (arith, h.on_page); direction = inr refl }
press-IsWizard (jump i) w h = elim (Bool-cases (leb i 3)) [
  | inl at ↦ rw at (elim (Bool-cases (i == w.step)) [
    | inl same ↦ rw (same, go_to) h
    | inr other ↦ rw (other, go_to) (record { on_page = ground arith; direction = ground arith })
  ])
  | inr off ↦ rw off h
]

-- Whatever is pressed, the checkout stays on one of its four steps, and slides one way or the other.
presses-IsWizard : (ps : List Press) (w : Wizard) → IsWizard w → IsWizard (presses ps w)
unfolding presses
presses-IsWizard [] w h = h
presses-IsWizard (p ∷ ps) w h = presses-IsWizard ps (press p w) (press-IsWizard p w h)
