-- ===== src/Prelude/Doubles.antt =====
-- `Math.round(n * c)` on IEEE doubles, for a whole number n and a constant c = m / 2 ^ e: the exact
-- product n * m / 2 ^ e is rounded to 53 bits, ties to even, and then to the nearest whole number,
-- ties up. The exponent stays in range for the numbers that the program multiplies.
use Prim.Native.Nat.{ℕ, zero, suc, ◌+◌, ◌-◌, ◌*◌, ◌/◌, ◌%◌, ◌^◌, ◌≤◌, ◌<◌}
use mathlib.Core.Bool.{false}
use mathlib.Core.Path.{◌≡◌}
use mathlib.Core.Logic.{◌⊎◌, inl, inr}
use native.Mathlib.Omega.{arith}
use native.Mathlib.Nat.{pow-suc, div-add-mod, mod-lt, mul-le-mul, le_refl}
use dinner_rush.Prelude.Tests.{ltb, ◌==◌, if◌then◌else◌, Bool-cases}

abbrev two53 : ℕ
two53 = 9007199254740992

abbrev two52 : ℕ
two52 = 4503599627370496

-- The weight of the last bit that a double near n keeps.
ulp_from : ℕ → ℕ → ℕ → ℕ
ulp_from zero p n = p
ulp_from (suc fuel) p n =
    let coarser = ulp_from fuel (2 * p) n in if ltb (n / p) two53 then p else coarser

-- n to the nearest multiple of p, ties to the even multiple.
nearest_multiple : ℕ → ℕ → ℕ
nearest_multiple p n =
    let q = n / p in
    let r = n % p in
    if ltb (2 * r) p
    then q * p
    else if ltb p (2 * r)
    then (q + 1) * p
    else if q % 2 == 0
    then q * p
    else (q + 1) * p

to_double : ℕ → ℕ
unfolding ulp_from nearest_multiple
to_double n = nearest_multiple (ulp_from 64 1 n) n

unfoldable pub times_round : (m e n : ℕ) → ℕ
unfolding to_double
times_round m e n = (2 * to_double (n * m) + 2 ^ e) / 2 ^ (e + 1)

IsUlp : ℕ → ℕ → Type 0
IsUlp p n = (1 ≤ p) × ((p ≡ 1) ⊎ (two52 * p ≤ n))

coarser-IsUlp : (p n : ℕ) → IsUlp p n → ltb (n / p) two53 ≡ false → IsUlp (2 * p) n
unfolding IsUlp
coarser-IsUlp p n h coarse =
    let big : two53 ≤ n / p = ground arith in
    omega (arith, mul-le-mul big (le_refl p), div-add-mod n p)

ulp_from-IsUlp :
    (fuel p n : ℕ) → IsUlp p n → n < two53 * (p * 2 ^ fuel) → IsUlp (ulp_from fuel p n) n
unfolding ulp_from IsUlp
ulp_from-IsUlp zero p n h b = h
ulp_from-IsUlp (suc fuel) p n h b = elim (Bool-cases (ltb (n / p) two53)) [
  | inl fits ↦ rw fits h
  | inr coarse ↦ rw coarse (
      ulp_from-IsUlp fuel (2 * p) n (coarser-IsUlp p n h coarse)
        (let b' : n < two53 * (p * (2 ^ fuel * 2)) = rw pow-suc at b in omega arith))
]

nearest_multiple_bounds :
    (p n : ℕ)
    → IsUlp p n
    → (two53 * nearest_multiple p n ≤ (two53 + 1) * n)
      × ((two53 - 1) * n ≤ two53 * nearest_multiple p n)
unfolding nearest_multiple IsUlp
nearest_multiple_bounds p n h = grind (arith, div-add-mod, mod-lt)

to_double_bounds :
    (n : ℕ)
    → n < 2 ^ 117
    → (two53 * to_double n ≤ (two53 + 1) * n) × ((two53 - 1) * n ≤ two53 * to_double n)
unfolding to_double IsUlp
to_double_bounds n h =
    nearest_multiple_bounds (ulp_from 64 1 n) n (ulp_from-IsUlp 64 1 n (omega arith) (omega arith))

-- For the 0.07 and the 0.0875 of the cart: the result is a nearest whole number to the exact product.
-- At a tie it may be either neighbour, as the product of doubles falls on one side of it.
pub times_round_7_percent :
    (n : ℕ)
    → n < 2 ^ 40
    → let fee = times_round 1261007895663739 54 n in
      (100 * fee ≤ 7 * n + 50) × (7 * n ≤ 100 * fee + 50)
unfolding times_round
times_round_7_percent n h = omega (arith, to_double_bounds (n * 1261007895663739) (omega arith))

pub times_round_875 :
    (n : ℕ)
    → n < 2 ^ 36
    → let tax = times_round 3152519739159347 55 n in
      (10000 * tax ≤ 875 * n + 5000) × (875 * n ≤ 10000 * tax + 5000)
unfolding times_round
times_round_875 n h = omega (arith, to_double_bounds (n * 3152519739159347) (omega arith))
