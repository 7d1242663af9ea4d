-- ===== src/Prelude/Sort.antt =====
-- `Array.prototype.sort`, which is stable, over the test that the comparator says "not after".
use dinner_rush.Prelude.{
  ℕ, Bool, true, false, List, [], ◌∷◌, map, ◌≡◌, refl, ◌∙◌, ap, sym, subst, Bool-cases, inl, inr,
  ◌⊎◌, arith, sum_of, if◌then◌else◌,
}
use mathlib.Core.List.{Permᴰ}
use mathlib.Core.List.Permᴰ
use dinner_rush.Prelude.Predicates.{All, Occurs}

-- What a permutation keeps: a predicate of all elements, a sum, and the image under a function.
module _ {A : Type 0} where
  pub All-Permᴰ {κ} : (P : A → Type κ) {xs ys : List A} → Permᴰ xs ys → All P xs → All P ys
  All-Permᴰ P Permᴰ.nil h = tt
  All-Permᴰ P (Permᴰ.cons e q) (h, hs) = (subst P e h, All-Permᴰ P q hs)
  All-Permᴰ P (Permᴰ.swap e f) (h, (k, hs)) = (subst P f k, (subst P e h, hs))
  All-Permᴰ P (Permᴰ.trans q r) h = All-Permᴰ P r (All-Permᴰ P q h)

  pub sum_of-Permᴰ : (f : A → ℕ) {xs ys : List A} → Permᴰ xs ys → sum_of f xs ≡ sum_of f ys
  sum_of-Permᴰ f Permᴰ.nil = refl
  sum_of-Permᴰ f (Permᴰ.cons e q) = omega (arith, ap f e, sum_of-Permᴰ f q)
  sum_of-Permᴰ f (Permᴰ.swap e g) = omega (arith, ap f e, ap f g)
  sum_of-Permᴰ f (Permᴰ.trans q r) = sum_of-Permᴰ f q ∙ sum_of-Permᴰ f r

  pub map-Permᴰ :
      {B : Type 0} (f : A → B) {xs ys : List A} → Permᴰ xs ys → Permᴰ (map f xs) (map f ys)
  map-Permᴰ f Permᴰ.nil = Permᴰ.nil
  map-Permᴰ f (Permᴰ.cons e q) = Permᴰ.cons (ap f e) (map-Permᴰ f q)
  map-Permᴰ f (Permᴰ.swap e g) = Permᴰ.swap (ap f e) (ap f g)
  map-Permᴰ f (Permᴰ.trans q r) = Permᴰ.trans (map-Permᴰ f q) (map-Permᴰ f r)

module _ {A : Type 0} where
  pub Permᴰ_sym : {xs ys : List A} → Permᴰ xs ys → Permᴰ ys xs
  Permᴰ_sym Permᴰ.nil = Permᴰ.nil
  Permᴰ_sym (Permᴰ.cons e q) = Permᴰ.cons (sym e) (Permᴰ_sym q)
  Permᴰ_sym (Permᴰ.swap e f) = Permᴰ.swap (sym f) (sym e)
  Permᴰ_sym (Permᴰ.trans q r) = Permᴰ.trans (Permᴰ_sym r) (Permᴰ_sym q)

  pub Occurs-Permᴰ : (x : A) {xs ys : List A} → Permᴰ xs ys → Occurs x xs → Occurs x ys
  Occurs-Permᴰ x Permᴰ.nil o = o
  Occurs-Permᴰ x (Permᴰ.cons e q) (inl f) = inl (f ∙ e)
  Occurs-Permᴰ x (Permᴰ.cons e q) (inr o) = inr (Occurs-Permᴰ x q o)
  Occurs-Permᴰ x (Permᴰ.swap e f) (inl g) = inr (inl (g ∙ e))
  Occurs-Permᴰ x (Permᴰ.swap e f) (inr (inl g)) = inl (g ∙ f)
  Occurs-Permᴰ x (Permᴰ.swap e f) (inr (inr o)) = inr (inr o)
  Occurs-Permᴰ x (Permᴰ.trans q r) o = Occurs-Permᴰ x r (Occurs-Permᴰ x q o)

  -- Every element stands in the relation to each that follows it.
  abbrev pub InOrder {κ} : (A → A → Type κ) → List A → Type κ
  InOrder R [] = Unit
  InOrder R (x ∷ xs) = All (R x) xs × InOrder R xs

module _ {A : Type 0} (le : A → A → Bool) where
  -- `x` goes before the elements that it is not after: an equal one that came later in the array.
  abbrev pub place_in : A → List A → List A
  place_in x [] = x ∷ []
  place_in x (y ∷ ys) = if le x y then x ∷ y ∷ ys else y ∷ place_in x ys

  abbrev pub sort : List A → List A
  sort [] = []
  sort (x ∷ xs) = place_in x (sort xs)

  -- What a comparator has to satisfy to order the array.
  pub record IsOrder : Type 0 where
    pub total : (x y : A) → (le x y ≡ true) ⊎ (le y x ≡ true)
    pub transitive : (x y z : A) → le x y ≡ true → le y z ≡ true → le x z ≡ true

  -- No element comes before one that it is after.
  abbrev pub AllAfter : A → List A → Type 0
  AllAfter x [] = Unit
  AllAfter x (y ∷ ys) = (le x y ≡ true) × AllAfter x ys

  abbrev pub IsSorted : List A → Type 0
  IsSorted [] = Unit
  IsSorted (x ∷ xs) = AllAfter x xs × IsSorted xs

  -- What the test implies of two elements holds along a sorted list.
  pub IsSorted-InOrder {κ} :
      (R : A → A → Type κ)
      → ((x y : A) → le x y ≡ true → R x y)
      → (xs : List A) → IsSorted xs
      → InOrder R xs
  IsSorted-InOrder R f [] h = tt
  IsSorted-InOrder R f (x ∷ xs) (h, hs) = (after xs h, IsSorted-InOrder R f xs hs)
    where
      after : (ys : List A) → AllAfter x ys → All (R x) ys
      after [] k = tt
      after (y ∷ ys) (k, ks) = (f x y k, after ys ks)

  place_in-Permᴰ : (x : A) (xs : List A) → Permᴰ (place_in x xs) (x ∷ xs)
  place_in-Permᴰ x [] = Permᴰ.cons refl Permᴰ.nil
  place_in-Permᴰ x (y ∷ ys) = elim (Bool-cases (le x y)) [
    | inl before ↦ rw before (Permᴰ.refl _)
    | inr after ↦
        rw after (Permᴰ.trans (Permᴰ.cons refl (place_in-Permᴰ x ys)) (Permᴰ.swap refl refl))
  ]

  -- Sorting only rearranges.
  pub sort-Permᴰ : (xs : List A) → Permᴰ (sort xs) xs
  sort-Permᴰ [] = Permᴰ.nil
  sort-Permᴰ (x ∷ xs) = Permᴰ.trans (place_in-Permᴰ x (sort xs)) (Permᴰ.cons refl (sort-Permᴰ xs))

  module _ (o : IsOrder) where
    AllAfter-trans : (x y : A) (ys : List A) → le x y ≡ true → AllAfter y ys → AllAfter x ys
    AllAfter-trans x y [] e h = tt
    AllAfter-trans x y (z ∷ zs) e (h, hs) = (o.transitive x y z e h, AllAfter-trans x y zs e hs)

    AllAfter-place_in :
        (y x : A) (xs : List A) → le y x ≡ true → AllAfter y xs → AllAfter y (place_in x xs)
    AllAfter-place_in y x [] e h = (e, tt)
    AllAfter-place_in y x (z ∷ zs) e (h, hs) = elim (Bool-cases (le x z)) [
      | inl before ↦ rw before (e, (h, hs))
      | inr after ↦ rw after (h, AllAfter-place_in y x zs e hs)
    ]

    place_in-IsSorted : (x : A) (xs : List A) → IsSorted xs → IsSorted (place_in x xs)
    place_in-IsSorted x [] h = (tt, tt)
    place_in-IsSorted x (y ∷ ys) (h, hs) = elim (Bool-cases (le x y)) [
      | inl before ↦ rw before ((before, AllAfter-trans x y ys before h), (h, hs))
      | inr after ↦
          let flipped : le y x ≡ true = ground (arith, o.total x y) in
          rw after (AllAfter-place_in y x ys flipped h, place_in-IsSorted x ys hs)
    ]

    pub sort-IsSorted : (xs : List A) → IsSorted (sort xs)
    sort-IsSorted [] = tt
    sort-IsSorted (x ∷ xs) = place_in-IsSorted x (sort xs) (sort-IsSorted xs)

    place_in_comm_lt :
        (x y : A) (xs : List A)
        → le x y ≡ true
        → le y x ≡ false
        → place_in x (place_in y xs) ≡ place_in y (place_in x xs)
    place_in_comm_lt x y [] e f = ground arith
    place_in_comm_lt x y (z ∷ zs) e f = ground (
      arith,
      place_in_comm_lt x y zs e f,
      o.transitive x y z,
      o.transitive y z x,
      o.total x z,
      o.total y z,
    )

    -- The elements in question are equal when they compare equal.
    module _ {κ} (P : A → Type κ)
        (apart : (x y : A) → P x → P y → le x y ≡ true → le y x ≡ true → x ≡ y) where
      place_in_comm :
          (x y : A) (xs : List A)
          → P x
          → P y
          → place_in x (place_in y xs) ≡ place_in y (place_in x xs)
      place_in_comm x y xs p q = elim (Bool-cases (le x y)) [
        | inl xy ↦ elim (Bool-cases (le y x)) [
          | inl yx ↦
              subst (λ z. place_in x (place_in z xs) ≡ place_in z (place_in x xs))
                (apart x y p q xy yx) refl
          | inr yx ↦ place_in_comm_lt x y xs xy yx
        ]
        | inr xy ↦ sym (place_in_comm_lt y x xs (ground (arith, o.total x y)) xy)
      ]

      -- The result does not depend on the order of the array.
      pub sort_perm : {xs ys : List A} → Permᴰ xs ys → All P xs → sort xs ≡ sort ys
      sort_perm Permᴰ.nil h = refl
      sort_perm (Permᴰ.cons e q) (h, hs) = λ i. place_in (e i) (sort_perm q hs i)
      sort_perm (Permᴰ.swap {a = a} {b = b} {l = l} e f) (h, (k, hs)) =
          place_in_comm a b (sort l) h k ∙ (λ i. place_in (f i) (place_in (e i) (sort l)))
      sort_perm (Permᴰ.trans q r) h = sort_perm q h ∙ sort_perm r (All-Permᴰ P q h)
