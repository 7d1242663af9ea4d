-- ===== src/Pages/Bundles.antt =====
-- The grid of the bundles, customer-web/src/app/bundles/bundle-grid.tsx: its themes and its filter.
use dinner_rush.Prelude.{
  String, true, false, List, [], ◌∷◌, ◌++◌, ◌≡◌, inl, inr, refl, str_eq, eq_iff, if◌then◌else◌,
  filter, arith, All, All-mono, Bool-cases, ◌||◌,
}
use dinner_rush.Prelude.Maps.{includes, no_repeats}
use dinner_rush.Types.{CuratedBundle}

abbrev all_themes : String
all_themes = "All"

add_themes : List CuratedBundle → List String → List String
add_themes [] seen = seen
add_themes (b ∷ bs) seen =
    add_themes bs (if includes seen b.theme then seen else seen ++ b.theme ∷ [])

themes : List CuratedBundle → List String
unfolding add_themes
themes bundles = all_themes ∷ add_themes bundles []

visible : String → List CuratedBundle → List CuratedBundle
visible active bundles =
    if str_eq active all_themes then bundles else filter (λ b. str_eq b.theme active) bundles

includes-push :
    (k id : String) (xs : List String) → includes (xs ++ id ∷ []) k ≡ (includes xs k || str_eq id k)
includes-push k id [] = ground arith
includes-push k id (x ∷ xs) = ground (arith, includes-push k id xs)

no_repeats-push :
    (id : String) (xs : List String)
    → includes xs id ≡ false
    → no_repeats xs ≡ true
    → no_repeats (xs ++ id ∷ []) ≡ true
no_repeats-push id [] n h = refl
no_repeats-push id (x ∷ xs) n h =
    ground (arith, no_repeats-push id xs, includes-push x id xs, eq_iff x id, eq_iff id x)

add_themes-kept :
    (bs : List CuratedBundle) (seen : List String) (k : String)
    → includes seen k ≡ true
    → includes (add_themes bs seen) k ≡ true
unfolding add_themes
add_themes-kept [] seen k h = h
add_themes-kept (b ∷ bs) seen k h = elim (Bool-cases (includes seen b.theme)) [
  | inl old ↦ rw old (add_themes-kept bs seen k h)
  | inr new ↦ rw new (
      add_themes-kept bs (seen ++ b.theme ∷ []) k (ground (arith, h, includes-push k b.theme seen)))
]

add_themes-found :
    (bs : List CuratedBundle) (seen : List String)
    → All (λ b. includes (add_themes bs seen) b.theme ≡ true) bs
unfolding add_themes
add_themes-found [] seen = tt
add_themes-found (b ∷ bs) seen =
    let next : List String = if includes seen b.theme then seen else seen ++ b.theme ∷ [] in
    (
      add_themes-kept bs next b.theme
          (ground (arith, includes-push b.theme b.theme seen, eq_iff b.theme b.theme)),
      add_themes-found bs next,
    )

add_themes-once :
    (bs : List CuratedBundle) (seen : List String)
    → no_repeats seen ≡ true
    → no_repeats (add_themes bs seen) ≡ true
unfolding add_themes
add_themes-once [] seen h = h
add_themes-once (b ∷ bs) seen h = elim (Bool-cases (includes seen b.theme)) [
  | inl old ↦ rw old (add_themes-once bs seen h)
  | inr new ↦
      rw new (add_themes-once bs (seen ++ b.theme ∷ []) (no_repeats-push b.theme seen new h))
]

-- Beside the chip for all, there is one chip for each theme, and every bundle's theme has one; so each
-- bundle can be reached through the chips.
themes_lem :
    (bundles : List CuratedBundle)
    → (no_repeats (add_themes bundles []) ≡ true)
      × All (λ b. includes (themes bundles) b.theme ≡ true) bundles
unfolding themes
themes_lem bundles = (
  add_themes-once bundles [] refl,
  All-mono (λ b. includes (add_themes bundles []) b.theme ≡ true)
      (λ b. includes (themes bundles) b.theme ≡ true) (λ b h. ground (arith, h)) bundles
      (add_themes-found bundles []),
)
