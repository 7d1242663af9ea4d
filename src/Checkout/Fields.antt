-- ===== src/Checkout/Fields.antt =====
-- The text fields of customer-web/src/app/checkout/checkout-flow.tsx: `cardBrand`, `formatCardNumber`,
-- `formatExpiry`, and the filters of the fields for a zip code and a security code.
use dinner_rush.Prelude.{
  ℕ, String, Bool, true, false, not, Option, none, some, ◌≡◌, refl, ap, ◌∙◌, if◌then◌else◌,
  get_elem?, leb, ◌==◌, ◌&&◌, ◌||◌, arith, Bool-cases, inl, inr,
}
use Prim.Native.String.append
use dinner_rush.Prelude.Text.{
  ◌+s◌, codes, is_space, keep, prefix, suffix, text_length, trim, keep-trim, prefix-prefix,
  keep-prefix-keep,
}

abbrev is_digit : ℕ → Bool
is_digit c = leb 48 c && leb c 57

abbrev is_dash_or_digit : ℕ → Bool
is_dash_or_digit c = is_digit c || c == 45

data Brand : Type 0 where
  visa mastercard amex discover card : Brand

-- The character class `[lo-hi]` at one place of a text.
abbrev in_class : ℕ → ℕ → Option ℕ → Bool
in_class lo hi none = false
in_class lo hi (some c) = leb lo c && leb c hi

card_brand : String → Brand
unfolding keep
card_brand number =
    let n = codes (keep (λ c. not (is_space c)) number) in
    let first = get_elem? n 0 in
    let second = get_elem? n 1 in
    if in_class 52 52 first
    then Brand.visa
    else if in_class 53 53 first && in_class 49 53 second
        || in_class 50 50 first && in_class 50 55 second
    then Brand.mastercard
    else if in_class 51 51 first && (in_class 52 52 second || in_class 55 55 second)
    then Brand.amex
    else if in_class 54 54 first
    then Brand.discover
    else Brand.card

-- `replace(/(.{4})/g, "$1 ")`
by_fours : String → String
by_fours (String.◌∷◌ a (String.◌∷◌ b (String.◌∷◌ c (String.◌∷◌ d s)))) =
    String.◌∷◌ a (String.◌∷◌ b (String.◌∷◌ c (String.◌∷◌ d (String.◌∷◌ " " (by_fours s)))))
by_fours s = s

format_card_number : String → String
unfolding keep prefix by_fours trim
format_card_number v = trim (by_fours (prefix 16 (keep is_digit v)))

format_expiry : String → String
unfolding keep prefix suffix
format_expiry v =
    let d = prefix 4 (keep is_digit v) in
    if leb (text_length d) 2 then d else prefix 2 d +s "/" +s suffix 2 d

filter_zip : String → String
unfolding keep prefix
filter_zip v = prefix 10 (keep is_dash_or_digit v)

filter_cvc : String → String
unfolding keep prefix
filter_cvc v = prefix 4 (keep is_digit v)

keep-by_fours : (p : ℕ → Bool) (s : String) → p 32 ≡ false → keep p (by_fours s) ≡ keep p s
unfolding keep by_fours
keep-by_fours p (String.◌∷◌ a (String.◌∷◌ b (String.◌∷◌ c (String.◌∷◌ d s)))) h =
    rw h (rw (keep-by_fours p s h) refl)
keep-by_fours p String.[] h = refl
keep-by_fours p (String.◌∷◌ a String.[]) h = refl
keep-by_fours p (String.◌∷◌ a (String.◌∷◌ b String.[])) h = refl
keep-by_fours p (String.◌∷◌ a (String.◌∷◌ b (String.◌∷◌ c String.[]))) h = refl

space_no_digit : (n : ℕ) → is_space n ≡ true → is_digit n ≡ false
space_no_digit n h = ground arith

-- A formatted card number has the first sixteen digits of what was typed, so formatting it again, as
-- the next key does, changes nothing.
format_card_number_again :
    (v : String)
    → (keep is_digit (format_card_number v) ≡ prefix 16 (keep is_digit v))
      × (format_card_number (format_card_number v) ≡ format_card_number v)
unfolding format_card_number
format_card_number_again v =
    let d = prefix 16 (keep is_digit v) in
    let digits : keep is_digit (trim (by_fours d)) ≡ d =
      keep-trim is_digit space_no_digit (by_fours d)
      ∙ keep-by_fours is_digit d refl
      ∙ keep-prefix-keep is_digit 16 v in
    (
      digits,
      ap (λ s. trim (by_fours (prefix 16 s))) digits
          ∙ ap (λ s. trim (by_fours s)) (prefix-prefix 16 (keep is_digit v)),
    )

keep-slash_text : (s : String) → keep is_digit ("/" +s s) ≡ keep is_digit s
unfolding keep
keep-slash_text s =
    ap (keep is_digit) ((λ i. append.cons "/" "" s i) ∙ ap (String.◌∷◌ "/") (λ i. append.nil s i))

keep-slash : (d : String) → keep is_digit (prefix 2 d +s "/" +s suffix 2 d) ≡ keep is_digit d
unfolding keep prefix suffix
keep-slash String.[] = refl
keep-slash (String.◌∷◌ a String.[]) = simp (append.nil, append.cons) refl
keep-slash (String.◌∷◌ a (String.◌∷◌ b s)) =
    simp (append.nil, append.cons) (rw (keep-slash_text s) refl)

-- A formatted expiry date has the first four digits of what was typed, so formatting it again, as the
-- next key does, changes nothing.
format_expiry_again :
    (v : String)
    → (keep is_digit (format_expiry v) ≡ prefix 4 (keep is_digit v))
      × (format_expiry (format_expiry v) ≡ format_expiry v)
unfolding format_expiry
format_expiry_again v =
    let d = prefix 4 (keep is_digit v) in
    let digits : keep is_digit (format_expiry v) ≡ d = elim (Bool-cases (leb (text_length d) 2)) [
      | inl short ↦ rw short (keep-prefix-keep is_digit 4 v)
      | inr long ↦ rw long (keep-slash d ∙ keep-prefix-keep is_digit 4 v)
    ] in
    let slashed : String → String =
      λ s. if leb (text_length s) 2 then s else prefix 2 s +s "/" +s suffix 2 s in
    (digits, ap (λ s. slashed (prefix 4 s)) digits ∙ ap slashed (prefix-prefix 4 (keep is_digit v)))
