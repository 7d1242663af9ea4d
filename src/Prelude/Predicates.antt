-- ===== src/Prelude/Predicates.antt =====
-- Predicates on lists by recursion, which the tactics take apart, and membership as a sum.
use mathlib.Core.Path.{◌≡◌, refl, ap, sym, subst}
use mathlib.Core.Logic.{◌⊎◌, inl, inr}
use mathlib.Core.Bool.{Bool, true}
use mathlib.Core.List.{List, [], ◌∷◌, ◌++◌, map}
use native.Mathlib.Omega.{arith}
use mathlib.Core.Option.{Option, some}
use dinner_rush.Prelude.Tests.{Bool-cases, Option-cases}
use dinner_rush.Prelude.Lists.{filter, all, filter_map, filter_map-none, filter_map-some}

abbrev pub All {ℓ κ} : {A : Type ℓ} → (A → Type κ) → List A → Type κ
All P [] = Unit
All P (x ∷ xs) = P x × All P xs

-- `Occurs x xs` says where `x` stands in `xs`.
abbrev pub Occurs : {A : Type 0} → A → List A → Type 0
Occurs x [] = ⊥
Occurs x (y ∷ ys) = (x ≡ y) ⊎ Occurs x ys

-- Each element is unlike all that follow it.
abbrev pub Distinct : {A : Type 0} → List A → Type 0
Distinct [] = Unit
Distinct (x ∷ xs) = (¬ Occurs x xs) × Distinct xs

module _ {κ} {A : Type 0} (P : A → Type κ) where
  pub All-append : (xs ys : List A) → All P xs → All P ys → All P (xs ++ ys)
  All-append [] ys h k = k
  All-append (x ∷ xs) ys (p, h) k = (p, All-append xs ys h k)

  pub All-filter : (p : A → Bool) (xs : List A) → All P xs → All P (filter p xs)
  All-filter p [] h = tt
  All-filter p (x ∷ xs) (h, hs) = ground (arith, All-filter p xs hs)

  pub All-Occurs : (xs : List A) {x : A} → All P xs → Occurs x xs → P x
  All-Occurs [] h o = elim o [ ]
  All-Occurs (y ∷ ys) (h, hs) (inl e) = subst P (sym e) h
  All-Occurs (y ∷ ys) (h, hs) (inr o) = All-Occurs ys hs o

module _ {A : Type 0} where
  pub Occurs-append_left : (x : A) (xs ys : List A) → Occurs x xs → Occurs x (xs ++ ys)
  Occurs-append_left x [] ys o = elim o [ ]
  Occurs-append_left x (y ∷ xs) ys (inl e) = inl e
  Occurs-append_left x (y ∷ xs) ys (inr o) = inr (Occurs-append_left x xs ys o)

  pub Occurs-append_right : (x : A) (xs ys : List A) → Occurs x ys → Occurs x (xs ++ ys)
  Occurs-append_right x [] ys o = o
  Occurs-append_right x (y ∷ xs) ys o = inr (Occurs-append_right x xs ys o)

  pub Occurs-append : (x : A) (xs ys : List A) → Occurs x (xs ++ ys) → Occurs x xs ⊎ Occurs x ys
  Occurs-append x [] ys o = inr o
  Occurs-append x (y ∷ xs) ys (inl e) = inl (inl e)
  Occurs-append x (y ∷ xs) ys (inr o) = elim (Occurs-append x xs ys o) [
    | inl l ↦ inl (inr l)
    | inr r ↦ inr r
  ]

  pub Occurs-filter : (x : A) (p : A → Bool) (xs : List A) → Occurs x (filter p xs) → Occurs x xs
  Occurs-filter x p [] o = o
  Occurs-filter x p (y ∷ xs) o = ground (arith, Occurs-filter x p xs)

  pub All-map {κ} :
      {B : Type 0} (P : B → Type κ) (f : A → B) (xs : List A)
      → All (λ x. P (f x)) xs
      → All P (map f xs)
  All-map P f [] h = tt
  All-map P f (x ∷ xs) (h, hs) = (h, All-map P f xs hs)

  pub Occurs-map :
      {B : Type 0} (f : A → B) (x : A) (xs : List A) → Occurs x xs → Occurs (f x) (map f xs)
  Occurs-map f x [] o = elim o [ ]
  Occurs-map f x (y ∷ xs) (inl e) = inl (ap f e)
  Occurs-map f x (y ∷ xs) (inr o) = inr (Occurs-map f x xs o)

  -- What a Boolean check of a whole list says of its elements.
  pub all_sound : (p : A → Bool) (xs : List A) → all p xs ≡ true → All (λ x. p x ≡ true) xs
  all_sound p [] h = tt
  all_sound p (x ∷ xs) h = (ground arith, all_sound p xs (ground arith))

  pub All-mono {κ} :
      (P Q : A → Type κ) → ((x : A) → P x → Q x) → (xs : List A) → All P xs → All Q xs
  All-mono P Q f [] h = tt
  All-mono P Q f (x ∷ xs) (h, hs) = (f x h, All-mono P Q f xs hs)

  pub All-intro {κ} : (P : A → Type κ) → ((x : A) → P x) → (xs : List A) → All P xs
  All-intro P f [] = tt
  All-intro P f (x ∷ xs) = (f x, All-intro P f xs)

  pub All-Occurs_self : (xs : List A) → All (λ x. Occurs x xs) xs
  All-Occurs_self [] = tt
  All-Occurs_self (x ∷ xs) = (
    inl refl,
    All-mono (λ y. Occurs y xs) (λ y. Occurs y (x ∷ xs)) (λ y o. inr o) xs (All-Occurs_self xs),
  )

pub All-zip :
    {A : Type 0} (P Q R : A → Type 0)
    → ((x : A) → P x → Q x → R x)
    → (xs : List A) → All P xs
    → All Q xs
    → All R xs
All-zip P Q R f [] h k = tt
All-zip P Q R f (x ∷ xs) (h, hs) (k, ks) = (f x h k, All-zip P Q R f xs hs ks)

pub All-filter_self :
    {A : Type 0} (p : A → Bool) (xs : List A) → All (λ x. p x ≡ true) (filter p xs)
All-filter_self p [] = tt
All-filter_self p (x ∷ xs) = elim (Bool-cases (p x)) [
  | inl kept ↦ rw kept (kept, All-filter_self p xs)
  | inr cut ↦ rw cut (All-filter_self p xs)
]

pub All-filter_map :
    {A B : Type 0} (f : A → Option B) (P : B → Type 0)
    → ((x : A) (y : B) → f x ≡ some y → P y)
    → (xs : List A) → All P (filter_map f xs)
All-filter_map f P h [] = tt
All-filter_map f P h (x ∷ xs) = elim (Option-cases (f x)) [
  | inl gone ↦ subst (All P) (sym (filter_map-none f x xs gone)) (All-filter_map f P h xs)
  | inr (y, at) ↦
      subst (All P) (sym (filter_map-some f x xs y at)) (h x y at, All-filter_map f P h xs)
]
