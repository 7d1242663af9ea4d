-- ===== src/Pages/Suggestions.antt =====
-- The suggestions of the cart page, customer-web/src/app/cart/cart-view.tsx, and its missing servings.
use dinner_rush.Prelude.{
  ℕ, ◌+◌, ◌-◌, ◌*◌, ◌/◌, ◌≤◌, String, true, false, List, [], ◌∷◌, ◌++◌, map, ◌≡◌, refl, str_eq,
  eq_iff, if◌then◌else◌, length, length-append, ◌==◌, ◌||◌, arith, All, All-append, Bool-cases, inl,
  inr,
}
use dinner_rush.Prelude.Maps.{includes, no_repeats}
use dinner_rush.Types.{Dish}
use dinner_rush.Catalog.{popular_dishes}
use dinner_rush.Catalog.Dishes.{dishes}

-- `Math.max(0, Math.ceil(headcount - totalServings))`, the servings doubled.
unfoldable pub missing : ℕ → ℕ → ℕ
missing headcount servings = (2 * headcount - servings + 1) / 2

-- The loop over the pool, which stops at the third pick.
pick : List String → List Dish → List String → List Dish → List Dish
pick in_cart [] seen picks = picks
pick in_cart (d ∷ pool) seen picks =
    let skipped = pick in_cart pool seen picks in
    let taken = pick in_cart pool (d.restaurant_id ∷ seen) (picks ++ d ∷ []) in
    if includes in_cart d.restaurant_id || includes seen d.restaurant_id
    then skipped
    else if length (picks ++ d ∷ []) == 3
    then picks ++ d ∷ []
    else taken

unfoldable pub suggestions : List String → List Dish
unfolding pick popular_dishes
suggestions restaurant_ids = pick restaurant_ids (popular_dishes ++ dishes) [] []

abbrev kitchens : List Dish → List String
kitchens ds = map (λ d. d.restaurant_id) ds

record ArePicks (in_cart seen : List String) (picks : List Dish) : Type 0 where
  few : length picks ≤ 3
  apart : no_repeats (kitchens picks) ≡ true
  known : (r : String) → includes (kitchens picks) r ≡ true → includes seen r ≡ true
  elsewhere : All (λ d. includes in_cart d.restaurant_id ≡ false) picks

kitchens-push :
    (picks : List Dish) (d : Dish) (r : String)
    → includes (kitchens (picks ++ d ∷ [])) r
      ≡ (includes (kitchens picks) r || str_eq d.restaurant_id r)
kitchens-push [] d r = ground arith
kitchens-push (p ∷ picks) d r = ground (arith, kitchens-push picks d r)

no_repeats-push :
    (picks : List Dish) (d : Dish)
    → includes (kitchens picks) d.restaurant_id ≡ false
    → no_repeats (kitchens picks) ≡ true
    → no_repeats (kitchens (picks ++ d ∷ [])) ≡ true
no_repeats-push [] d n h = refl
no_repeats-push (p ∷ picks) d n h = ground (
  arith,
  no_repeats-push picks d,
  kitchens-push picks d p.restaurant_id,
  eq_iff p.restaurant_id d.restaurant_id,
  eq_iff d.restaurant_id p.restaurant_id,
)

push-ArePicks :
    (in_cart seen : List String) (picks : List Dish) (d : Dish)
    → length picks ≤ 2
    → includes in_cart d.restaurant_id ≡ false
    → includes seen d.restaurant_id ≡ false
    → ArePicks in_cart seen picks
    → ArePicks in_cart (d.restaurant_id ∷ seen) (picks ++ d ∷ [])
push-ArePicks in_cart seen picks d l out new h = record {
  few = omega (arith, l, length-append {0} picks (d ∷ []));
  apart = no_repeats-push picks d (ground (arith, new, h.known d.restaurant_id)) h.apart;
  known = λ r e. ground (arith, e, kitchens-push picks d r, h.known r);
  elsewhere =
      All-append (λ d. includes in_cart d.restaurant_id ≡ false) picks (d ∷ []) h.elsewhere
        (out, tt);
}

pick-ArePicks :
    (in_cart : List String) (pool : List Dish) (seen : List String) (picks : List Dish)
    → length picks ≤ 2
    → ArePicks in_cart seen picks
    → (length (pick in_cart pool seen picks) ≤ 3)
      × (no_repeats (kitchens (pick in_cart pool seen picks)) ≡ true)
      × All (λ d. includes in_cart d.restaurant_id ≡ false) (pick in_cart pool seen picks)
unfolding pick
pick-ArePicks in_cart [] seen picks l h = (h.few, h.apart, h.elsewhere)
pick-ArePicks in_cart (d ∷ pool) seen picks l h =
    elim (Bool-cases (includes in_cart d.restaurant_id || includes seen d.restaurant_id)) [
      | inl skip ↦ rw skip (pick-ArePicks in_cart pool seen picks l h)
      | inr take_ ↦
          let next = push-ArePicks in_cart seen picks d l (ground arith) (ground arith) h in
          rw take_ (elim (Bool-cases (length (picks ++ d ∷ []) == 3)) [
            | inl full ↦ rw full (next.few, next.apart, next.elsewhere)
            | inr more ↦ rw more (
                pick-ArePicks in_cart pool (d.restaurant_id ∷ seen) (picks ++ d ∷ [])
                  (ground (arith, next.few, more)) next)
          ])
    ]

-- The suggestions are at most three dishes, of different restaurants, none of which is in the cart.
suggestions_lem :
    (restaurant_ids : List String)
    → (length (suggestions restaurant_ids) ≤ 3)
      × (no_repeats (kitchens (suggestions restaurant_ids)) ≡ true)
      × All (λ d. includes restaurant_ids d.restaurant_id ≡ false) (suggestions restaurant_ids)
unfolding suggestions
suggestions_lem restaurant_ids =
    pick-ArePicks restaurant_ids (popular_dishes ++ dishes) [] [] (omega arith)
      (record { few = omega arith; apart = refl; known = λ r e. absurd (cc); elsewhere = tt })
