-- ===== src/Pages/Pairings.antt =====
-- The pairings of a restaurant's page, customer-web/src/app/restaurants/[slug]/page.tsx: popular dishes
-- of other restaurants and of other cuisines.
use dinner_rush.Prelude.{
  ◌≤◌, String, Bool, true, false, not, get_or, List, [], ◌∷◌, ◌++◌, map, ◌≡◌, refl, ap, str_eq,
  eq_iff, if◌then◌else◌, length, length-append, ◌==◌, ◌||◌, arith, All, All-append, Bool-cases, inl,
  inr,
}
use dinner_rush.Prelude.Maps.{includes, no_repeats}
use dinner_rush.Types.{Dish, Restaurant, cuisine_name}
use dinner_rush.Catalog.Dishes.{dishes}

-- The three guards of the loop.
passed_over : String → List String → Dish → Bool
passed_over id seen d =
    str_eq d.restaurant_id id
    || includes seen (cuisine_name d.cuisine)
    || not (get_or d.popular false)

-- The loop, which stops at the fourth pairing.
pair : String → List Dish → List String → List Dish → List Dish
unfolding passed_over
pair id [] seen pairings = pairings
pair id (d ∷ pool) seen pairings =
    let skipped = pair id pool seen pairings in
    let taken = pair id pool (cuisine_name d.cuisine ∷ seen) (pairings ++ d ∷ []) in
    if passed_over id seen d
    then skipped
    else if length (pairings ++ d ∷ []) == 4
    then pairings ++ d ∷ []
    else taken

pairings_of : Restaurant → List Dish
unfolding pair
pairings_of r = pair r.id dishes (cuisine_name r.cuisine ∷ []) []

abbrev cuisines : List Dish → List String
cuisines ds = map (λ d. cuisine_name d.cuisine) ds

IsPairing : String → String → Dish → Type 0
IsPairing id home d =
    (str_eq d.restaurant_id id ≡ false)
    × (str_eq (cuisine_name d.cuisine) home ≡ false)
    × (get_or d.popular false ≡ true)

record ArePairings (id home : String) (seen : List String) (ds : List Dish) : Type 0 where
  few : length ds ≤ 4
  apart : no_repeats (cuisines ds) ≡ true
  known : (c : String) → includes (cuisines ds) c ≡ true → includes seen c ≡ true
  at_home : includes seen home ≡ true
  fitting : All (IsPairing id home) ds

cuisines-push :
    (ds : List Dish) (d : Dish) (c : String)
    → includes (cuisines (ds ++ d ∷ [])) c
      ≡ (includes (cuisines ds) c || str_eq (cuisine_name d.cuisine) c)
cuisines-push [] d c = ground arith
cuisines-push (e ∷ ds) d c = ground (arith, cuisines-push ds d c)

no_repeats-cuisines :
    (ds : List Dish) (d : Dish)
    → includes (cuisines ds) (cuisine_name d.cuisine) ≡ false
    → no_repeats (cuisines ds) ≡ true
    → no_repeats (cuisines (ds ++ d ∷ [])) ≡ true
no_repeats-cuisines [] d n h = refl
no_repeats-cuisines (e ∷ ds) d n h = ground (
  arith,
  no_repeats-cuisines ds d,
  cuisines-push ds d (cuisine_name e.cuisine),
  eq_iff (cuisine_name e.cuisine) (cuisine_name d.cuisine),
  eq_iff (cuisine_name d.cuisine) (cuisine_name e.cuisine),
)

away :
    (c home : String) (seen : List String)
    → includes seen home ≡ true
    → includes seen c ≡ false
    → str_eq c home ≡ false
away c home seen i n = elim (Bool-cases (str_eq c home)) [
  | inl same ↦ ground (arith, i, n, ap (λ u. includes seen u) ((eq_iff c home).0 same))
  | inr other ↦ other
]

push-ArePairings :
    (id home : String) (seen : List String) (ds : List Dish) (d : Dish)
    → length ds ≤ 3
    → passed_over id seen d ≡ false
    → ArePairings id home seen ds
    → ArePairings id home (cuisine_name d.cuisine ∷ seen) (ds ++ d ∷ [])
unfolding passed_over IsPairing
push-ArePairings id home seen ds d l p h =
    let new : includes seen (cuisine_name d.cuisine) ≡ false = ground arith in
    record {
      few = omega (arith, l, length-append {0} ds (d ∷ []));
      apart =
          no_repeats-cuisines ds d (ground (arith, new, h.known (cuisine_name d.cuisine))) h.apart;
      known = λ c e. ground (arith, e, cuisines-push ds d c, h.known c);
      at_home = ground (arith, h.at_home);
      fitting =
          All-append (IsPairing id home) ds (d ∷ []) h.fitting (
            (ground arith, away (cuisine_name d.cuisine) home seen h.at_home new, ground arith),
            tt,
          );
    }

pair-ArePairings :
    (id home : String) (pool : List Dish) (seen : List String) (ds : List Dish)
    → length ds ≤ 3
    → ArePairings id home seen ds
    → (length (pair id pool seen ds) ≤ 4)
      × (no_repeats (cuisines (pair id pool seen ds)) ≡ true)
      × All (IsPairing id home) (pair id pool seen ds)
unfolding pair
pair-ArePairings id home [] seen ds l h = (h.few, h.apart, h.fitting)
pair-ArePairings id home (d ∷ pool) seen ds l h = elim (Bool-cases (passed_over id seen d)) [
  | inl skip ↦ rw skip (pair-ArePairings id home pool seen ds l h)
  | inr take_ ↦
      let next = push-ArePairings id home seen ds d l take_ h in
      rw take_ (elim (Bool-cases (length (ds ++ d ∷ []) == 4)) [
        | inl full ↦ rw full (next.few, next.apart, next.fitting)
        | inr more ↦ rw more (
            pair-ArePairings id home pool (cuisine_name d.cuisine ∷ seen) (ds ++ d ∷ [])
              (ground (arith, next.few, more)) next)
      ])
]

-- The pairings are at most four popular dishes of other restaurants, of cuisines that differ from each
-- other and from the restaurant's own.
pairings_of_lem :
    (r : Restaurant)
    → (length (pairings_of r) ≤ 4)
      × (no_repeats (cuisines (pairings_of r)) ≡ true)
      × All (IsPairing r.id (cuisine_name r.cuisine)) (pairings_of r)
unfolding pairings_of
pairings_of_lem r =
    pair-ArePairings r.id (cuisine_name r.cuisine) dishes (cuisine_name r.cuisine ∷ []) []
      (omega arith)
      (record {
        few = omega arith;
        apart = refl;
        known = λ c e. absurd (cc);
        at_home = ground (arith, eq_iff (cuisine_name r.cuisine) (cuisine_name r.cuisine));
        fitting = tt;
      })
