-- ===== src/Pages/Browser/Results.antt =====
-- The results of the browser: which restaurants they are, and in which order.
use mathlib.Core.List.{Permᴰ}
use dinner_rush.Prelude.{
  ℕ, suc, ◌≤◌, ◌<◌, String, Bool, true, false, some, List, [], ◌∷◌, map, filter, str_eq, eq_iff,
  ltb, if◌then◌else◌, ◌≡◌, refl, sym, ap, ◌∙◌, ◌⊎◌, inl, inr, ◌↔◌, arith, Occurs, Bool-cases,
  Option-cases,
}
use dinner_rush.Prelude.Maps.{includes, no_repeats}
use dinner_rush.Prelude.Sort.{
  sort, IsOrder, sort-Permᴰ, sort-IsSorted, Permᴰ_sym, Occurs-Permᴰ, map-Permᴰ, InOrder,
  IsSorted-InOrder,
}
use dinner_rush.Types.{Restaurant}
use dinner_rush.Catalog.Restaurants.{restaurants}
use dinner_rush.Pages.Browser.{
  SortKey, Controls, prep_rank, featured_rank, not_more, not_after, is_result, results,
}
use dinner_rush.Pages.Browser.Filter.{Meets, Occurs-filtered, is_result-Meets}

not_more-IsOrder : (f g : Restaurant → ℕ) → IsOrder (λ a b. not_more (f a) (f b) (g b) (g a))
not_more-IsOrder f g = record {
  total = λ x y. elim (Bool-cases (not_more (f x) (f y) (g y) (g x))) [
    | inl h ↦ inl h
    | inr h ↦ inr (ground arith)
  ];
  transitive = λ x y z h k. ground (arith, h, k);
}

not_less-IsOrder : (f g : Restaurant → ℕ) → IsOrder (λ a b. not_more (f b) (f a) (g b) (g a))
not_less-IsOrder f g = record {
  total = λ x y. elim (Bool-cases (not_more (f y) (f x) (g y) (g x))) [
    | inl h ↦ inl h
    | inr h ↦ inr (ground arith)
  ];
  transitive = λ x y z h k. ground (arith, h, k);
}

not_after-IsOrder : (key : SortKey) → IsOrder (not_after key)
unfolding not_after
not_after-IsOrder SortKey.rating = not_less-IsOrder (λ r. r.rating) (λ r. r.reviews)
not_after-IsOrder SortKey.prep = not_more-IsOrder (λ r. prep_rank r.prep_time) (λ r. r.rating)
not_after-IsOrder SortKey.lowest = not_more-IsOrder (λ r. r.min_order) (λ r. r.rating)
not_after-IsOrder SortKey.recommended = not_less-IsOrder featured_rank (λ r. r.rating)

-- How soon a restaurant can prepare: its place among the known texts, behind them if it has none.
abbrev pub soonness : String → ℕ
soonness s = place s ("Same day" ∷ "24h notice" ∷ "48h notice" ∷ [])
  where
    place : String → List String → ℕ
    place s [] = 0
    place s (t ∷ ts) = if str_eq s t then 0 else suc (place s ts)

abbrev pub IsFeatured : Restaurant → Type 0
IsFeatured r = r.featured ≡ some true

-- That `a` may stand before `b`, as the label of the order says.
abbrev pub Precedes : SortKey → Restaurant → Restaurant → Type 0
Precedes SortKey.rating a b =
    (b.rating < a.rating) ⊎ ((a.rating ≡ b.rating) × (b.reviews ≤ a.reviews))
Precedes SortKey.prep a b =
    (soonness a.prep_time < soonness b.prep_time)
    ⊎ ((soonness a.prep_time ≡ soonness b.prep_time) × (b.rating ≤ a.rating))
Precedes SortKey.lowest a b =
    (a.min_order < b.min_order) ⊎ ((a.min_order ≡ b.min_order) × (b.rating ≤ a.rating))
Precedes SortKey.recommended a b =
    (IsFeatured a × ¬ IsFeatured b) ⊎ ((IsFeatured a ↔ IsFeatured b) × (b.rating ≤ a.rating))

prep_rank-soonness :
    (s : String)
    → ((prep_rank s ≡ soonness s) × (soonness s ≤ 2)) ⊎ ((prep_rank s ≡ 9) × (soonness s ≡ 3))
unfolding prep_rank
prep_rank-soonness s = elim (Bool-cases (str_eq s "Same day")) [
  | inl e ↦ rw (e, prep_rank) (inl (refl, omega arith))
  | inr n ↦ elim (Bool-cases (str_eq s "24h notice")) [
    | inl e ↦ rw (n, prep_rank) (rw e (inl (refl, omega arith)))
    | inr m ↦ elim (Bool-cases (str_eq s "48h notice")) [
      | inl e ↦ rw (n, prep_rank) (rw m (rw e (inl (refl, omega arith))))
      | inr k ↦ rw (n, prep_rank) (rw m (rw k (inr (refl, refl))))
    ]
  ]
]

same_soonness :
    (p q m n : ℕ)
    → ((p ≡ m) × (m ≤ 2)) ⊎ ((p ≡ 9) × (m ≡ 3))
    → ((q ≡ n) × (n ≤ 2)) ⊎ ((q ≡ 9) × (n ≡ 3))
    → (p < q → m < n) × (p ≡ q → m ≡ n)
same_soonness p q m n (inl h) (inl k) = (λ l. omega (arith, h, k, l), λ e. omega (arith, h, k, e))
same_soonness p q m n (inl h) (inr k) = (λ l. omega (arith, h, k, l), λ e. omega (arith, h, k, e))
same_soonness p q m n (inr h) (inl k) = (λ l. omega (arith, h, k, l), λ e. omega (arith, h, k, e))
same_soonness p q m n (inr h) (inr k) = (λ l. omega (arith, h, k, l), λ e. omega (arith, h, k, e))

not_more_sound : (x y v w : ℕ) → not_more x y v w ≡ true → (x < y) ⊎ ((x ≡ y) × (v ≤ w))
not_more_sound x y v w h = elim (Bool-cases (ltb x y)) [
  | inl less ↦ inl (ground (arith, less))
  | inr n ↦ inr (ground (arith, n, h), ground (arith, n, h))
]

featured_rank_cases :
    (r : Restaurant)
    → (IsFeatured r × (featured_rank r ≡ 1)) ⊎ ((¬ IsFeatured r) × (featured_rank r ≡ 0))
featured_rank_cases r = elim (Option-cases r.featured) [
  | inl none_said ↦ inr (λ e. absurd (cc), ground (arith, none_said))
  | inr (b, said) ↦ elim (Bool-cases b) [
    | inl on ↦ inl (said ∙ ap some on, ground (arith, said, on))
    | inr off ↦ inr (λ e. absurd (cc), ground (arith, said, off))
  ]
]

recommended_order :
    (a b : Restaurant)
    → (IsFeatured a × (featured_rank a ≡ 1)) ⊎ ((¬ IsFeatured a) × (featured_rank a ≡ 0))
    → (IsFeatured b × (featured_rank b ≡ 1)) ⊎ ((¬ IsFeatured b) × (featured_rank b ≡ 0))
    → (featured_rank b < featured_rank a)
      ⊎ ((featured_rank b ≡ featured_rank a) × (b.rating ≤ a.rating))
    → Precedes SortKey.recommended a b
recommended_order a b (inl (f, x)) (inl (g, y)) (inl l) = absurd (omega (arith, x, y, l))
recommended_order a b (inl (f, x)) (inl (g, y)) (inr (e, le)) = inr ((λ _. g, λ _. f), le)
recommended_order a b (inl (f, x)) (inr (n, y)) o = inl (f, n)
recommended_order a b (inr (m, x)) (inl (g, y)) (inl l) = absurd (omega (arith, x, y, l))
recommended_order a b (inr (m, x)) (inl (g, y)) (inr (e, le)) = absurd (omega (arith, x, y, e))
recommended_order a b (inr (m, x)) (inr (n, y)) (inl l) = absurd (omega (arith, x, y, l))
recommended_order a b (inr (m, x)) (inr (n, y)) (inr (e, le)) =
    inr ((λ f. absurd (m f), λ g. absurd (n g)), le)

not_after-Precedes :
    (key : SortKey) (a b : Restaurant) → not_after key a b ≡ true → Precedes key a b
unfolding not_after
not_after-Precedes SortKey.rating a b h =
    elim (not_more_sound b.rating a.rating b.reviews a.reviews h) [
      | inl less ↦ inl less
      | inr (same, le) ↦ inr (sym same, le)
    ]
not_after-Precedes SortKey.prep a b h =
    let (less, same) =
      same_soonness (prep_rank a.prep_time) (prep_rank b.prep_time) (soonness a.prep_time)
        (soonness b.prep_time) (prep_rank-soonness a.prep_time) (prep_rank-soonness b.prep_time) in
    elim (not_more_sound (prep_rank a.prep_time) (prep_rank b.prep_time) b.rating a.rating h) [
      | inl l ↦ inl (less l)
      | inr (e, le) ↦ inr (same e, le)
    ]
not_after-Precedes SortKey.lowest a b h = not_more_sound a.min_order b.min_order b.rating a.rating h
not_after-Precedes SortKey.recommended a b h =
    recommended_order a b (featured_rank_cases a) (featured_rank_cases b)
      (not_more_sound (featured_rank b) (featured_rank a) b.rating a.rating h)

-- A rearrangement of a list of keys, and a selection from it, repeat none that it does not.
includes-Permᴰ : (k : String) {xs ys : List String} → Permᴰ xs ys → includes xs k ≡ includes ys k
includes-Permᴰ k Permᴰ.nil = refl
includes-Permᴰ k (Permᴰ.cons {a = a} {b = b} e q) =
    ground (arith, includes-Permᴰ k q, ap (λ x. str_eq x k) e)
includes-Permᴰ k (Permᴰ.swap e f) = ground (arith, ap (λ x. str_eq x k) e, ap (λ x. str_eq x k) f)
includes-Permᴰ k (Permᴰ.trans q r) = includes-Permᴰ k q ∙ includes-Permᴰ k r

no_repeats_swap : (a b : String) (l : List String) → no_repeats (a ∷ b ∷ l) ≡ no_repeats (b ∷ a ∷ l)
no_repeats_swap a b l = ground (arith, eq_iff a b, eq_iff b a)

no_repeats-Permᴰ : {xs ys : List String} → Permᴰ xs ys → no_repeats xs ≡ no_repeats ys
no_repeats-Permᴰ Permᴰ.nil = refl
no_repeats-Permᴰ (Permᴰ.cons {a = a} {l₂ = l} e q) =
    ground (arith, no_repeats-Permᴰ q, includes-Permᴰ a q, ap (includes l) e)
no_repeats-Permᴰ (Permᴰ.swap {a = a} {b = b} {l = l} e f) =
    no_repeats_swap a b l ∙ (λ i. no_repeats (f i ∷ e i ∷ l))
no_repeats-Permᴰ (Permᴰ.trans q r) = no_repeats-Permᴰ q ∙ no_repeats-Permᴰ r

module _ {A : Type 0} (key : A → String) (p : A → Bool) where
  includes-map-filter :
      (k : String) (xs : List A)
      → includes (map key xs) k ≡ false
      → includes (map key (filter p xs)) k ≡ false
  includes-map-filter k [] h = refl
  includes-map-filter k (x ∷ xs) h = ground (arith, includes-map-filter k xs, h)

  no_repeats-map-filter :
      (xs : List A) → no_repeats (map key xs) ≡ true → no_repeats (map key (filter p xs)) ≡ true
  no_repeats-map-filter [] h = refl
  no_repeats-map-filter (x ∷ xs) h =
      ground (arith, no_repeats-map-filter xs, includes-map-filter (key x) xs, h)

-- The results of the browser are the restaurants of the catalog that meet the filters: that have the
-- cuisine that is chosen, if one is, and the query in their texts, if one is typed, and a dish with each
-- diet that is chosen. None of them comes twice, and each may stand before all that follow it, as the
-- chosen order says: by rating, the higher first, and then by the number of reviews; or by preparation,
-- the sooner first, or by the least order, the lower first, or the featured ones first, and then by
-- rating.
pub results_lem :
    (to_lower : String → String) (c : Controls)
    → ((r : Restaurant)
        → Occurs r (results to_lower c) ↔ (Occurs r restaurants × Meets to_lower c r))
      × (no_repeats (map (λ (r : Restaurant). r.id) (results to_lower c)) ≡ true)
      × InOrder (Precedes c.sort_key) (results to_lower c)
unfolding results
results_lem to_lower c =
    let le = not_after c.sort_key in
    let test = is_result to_lower c in
    let listed = filter test restaurants in
    let perm = sort-Permᴰ le listed in
    (
      λ r.
          let (only, also) = Occurs-filtered test restaurants r in
          let (sound, complete) = is_result-Meets to_lower c r in
          (
            (λ o. let (there, k) = only (Occurs-Permᴰ r perm o) in (there, sound k)),
            (λ h. Occurs-Permᴰ r (Permᴰ_sym perm) (also (h.0, complete h.1))),
          ),
      no_repeats-Permᴰ (map-Permᴰ (λ (r : Restaurant). r.id) perm)
          ∙ no_repeats-map-filter (λ (r : Restaurant). r.id) test restaurants refl,
      IsSorted-InOrder le (Precedes c.sort_key) (not_after-Precedes c.sort_key) (sort le listed)
          (sort-IsSorted le (not_after-IsOrder c.sort_key) listed),
    )
