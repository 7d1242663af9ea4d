-- ===== src/Prelude/Text.antt =====
-- Text: concatenation, code points, and the white space at the ends.
use Prim.Native.Nat.{ℕ, zero, suc, ◌+◌, ◌/◌, ◌%◌, Ordering}
use Prim.Native.Char.{code}
use Prim.Native.String
use Prim.Native.String.{String}
use mathlib.Core.Bool.{Bool, true, false, ◌&&◌, ◌||◌}
use mathlib.Core.List.{List, [], ◌∷◌}
use mathlib.Core.Path.{◌≡◌, refl, sym, ap, ◌∙◌}
use mathlib.Core.Logic.{inl, inr}
use mathlib.Core.Option.{get_or}
use dinner_rush.Prelude.Lists.{any, get_elem?}
use dinner_rush.Prelude.Tests.{leb, ◌==◌, if◌then◌else◌, Bool-cases}

infixr 60 ◌+s◌
abbrev pub ◌+s◌ : String → String → String
s +s t = String.◌++◌ s t

-- The code points of a text.
abbrev pub codes : String → List ℕ
codes String.[] = []
codes (String.◌∷◌ c s) = code c ∷ codes s

-- The white space and line ends of ECMAScript.
abbrev pub lone_spaces : List ℕ
lone_spaces = 32 ∷ 160 ∷ 5760 ∷ 8232 ∷ 8233 ∷ 8239 ∷ 8287 ∷ 12288 ∷ 65279 ∷ []

abbrev pub is_space : ℕ → Bool
is_space c = any (λ k. k == c) lone_spaces || leb 9 c && leb c 13 || leb 8192 c && leb c 8202

trim_start : String → String
trim_start String.[] = String.[]
trim_start (String.◌∷◌ c s) =
    let shorter = trim_start s in if is_space (code c) then shorter else String.◌∷◌ c s

is_empty : String → Bool
is_empty String.[] = true
is_empty (String.◌∷◌ c s) = false

trim_end : String → String
unfolding is_empty
trim_end String.[] = String.[]
trim_end (String.◌∷◌ c s) =
    let rest = trim_end s in
    if is_space (code c) && is_empty rest then String.[] else String.◌∷◌ c rest

-- `String.prototype.trim`
unfoldable pub trim : String → String
unfolding trim_start trim_end
trim s = trim_end (trim_start s)

-- The first code points of a text. `slice(0, n)` counts UTF-16 units, which are these for the texts
-- that the program cuts: ids, digits and tokens.
unfoldable pub prefix : ℕ → String → String
prefix zero s = String.[]
prefix (suc n) String.[] = String.[]
prefix (suc n) (String.◌∷◌ c s) = String.◌∷◌ c (prefix n s)

abbrev numerals : List String
numerals = "0" ∷ "1" ∷ "2" ∷ "3" ∷ "4" ∷ "5" ∷ "6" ∷ "7" ∷ "8" ∷ "9" ∷ []

digit : ℕ → String
digit n = get_or (get_elem? numerals n) ""

digits : ℕ → ℕ → String
unfolding digit
digits zero n = ""
digits (suc fuel) n =
    let front = digits fuel (n / 10) in if leb n 9 then digit n else front +s digit (n % 10)

-- A whole number in a template text. A number has fewer digits than it counts.
unfoldable pub decimal : ℕ → String
unfolding digits
decimal n = digits (n + 1) n

-- The order of texts by `<`.
abbrev pub str_lt : String → String → Bool
str_lt s t = elim (String.compare s t) [
  | Ordering.lt ↦ true
  | Ordering.eq ↦ false
  | Ordering.gt ↦ false
]

-- The code points of a text that a test accepts: `replace(/[^…]/g, "")`.
unfoldable pub keep : (ℕ → Bool) → String → String
keep p String.[] = String.[]
keep p (String.◌∷◌ c s) = let rest = keep p s in if p (code c) then String.◌∷◌ c rest else rest

-- `slice(n)`
unfoldable pub suffix : ℕ → String → String
suffix zero s = s
suffix (suc n) String.[] = String.[]
suffix (suc n) (String.◌∷◌ c s) = suffix n s

abbrev pub text_length : String → ℕ
text_length String.[] = 0
text_length (String.◌∷◌ c s) = suc (text_length s)

keep-trim_start :
    (p : ℕ → Bool)
    → ((n : ℕ) → is_space n ≡ true → p n ≡ false)
    → (s : String) → keep p (trim_start s) ≡ keep p s
unfolding keep trim_start
keep-trim_start p h String.[] = refl
keep-trim_start p h (String.◌∷◌ c s) = elim (Bool-cases (is_space (code c))) [
  | inl space ↦ rw (space, h (code c) space) (keep-trim_start p h s)
  | inr other ↦ rw other refl
]

empty_lem : (s : String) → is_empty s ≡ true → s ≡ String.[]
unfolding is_empty
empty_lem String.[] h = refl
empty_lem (String.◌∷◌ c s) h = absurd (cc)

keep-trim_end :
    (p : ℕ → Bool)
    → ((n : ℕ) → is_space n ≡ true → p n ≡ false)
    → (s : String) → keep p (trim_end s) ≡ keep p s
unfolding keep trim_end
keep-trim_end p h String.[] = refl
keep-trim_end p h (String.◌∷◌ c s) =
    let ih = keep-trim_end p h s in
    elim (Bool-cases (is_space (code c))) [
      | inr other ↦ rw other (rw ih refl)
      | inl space ↦ elim (Bool-cases (is_empty (trim_end s))) [
        | inl gone ↦
            rw (space, gone, h (code c) space)
              (sym (ap (keep p) (empty_lem (trim_end s) gone)) ∙ ih)
        | inr left ↦ rw (space, left) (rw (h (code c) space) ih)
      ]
    ]

-- Trimming takes away nothing that a test accepts which no white space passes.
pub keep-trim :
    (p : ℕ → Bool)
    → ((n : ℕ) → is_space n ≡ true → p n ≡ false)
    → (s : String) → keep p (trim s) ≡ keep p s
unfolding trim
keep-trim p h s = keep-trim_end p h (trim_start s) ∙ keep-trim_start p h s

pub prefix-prefix : (n : ℕ) (s : String) → prefix n (prefix n s) ≡ prefix n s
unfolding prefix
prefix-prefix zero s = refl
prefix-prefix (suc n) String.[] = refl
prefix-prefix (suc n) (String.◌∷◌ c s) = ap (String.◌∷◌ c) (prefix-prefix n s)

-- What is kept is kept again, also of a part of it.
pub keep-prefix-keep :
    (p : ℕ → Bool) (n : ℕ) (s : String) → keep p (prefix n (keep p s)) ≡ prefix n (keep p s)
unfolding keep prefix
keep-prefix-keep p zero s = refl
keep-prefix-keep p (suc n) String.[] = refl
keep-prefix-keep p (suc n) (String.◌∷◌ c s) = elim (Bool-cases (p (code c))) [
  | inl kept ↦ rw kept (rw kept (ap (String.◌∷◌ c) (keep-prefix-keep p n s)))
  | inr out ↦ rw out (keep-prefix-keep p (suc n) s)
]
