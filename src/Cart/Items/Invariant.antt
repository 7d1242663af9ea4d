-- ===== src/Cart/Items/Invariant.antt =====
-- The invariant of the cart's list of items: known dishes, none listed twice, each at least once.
use dinner_rush.Prelude.{
  ℕ, zero, suc, ◌≤◌, String, true, false, List, [], ◌∷◌, ◌++◌, map, ◌≡◌, refl, str_eq, eq_iff,
  arith, is_some, none, find?, Option-cases, inl, inr, All,
}
use dinner_rush.Prelude.Int.{ℤ, pos, negsuc}
use dinner_rush.Prelude.Maps.{lookup, includes}
use dinner_rush.Types.{CartItem}
use dinner_rush.Catalog.{dish_map}
use dinner_rush.Cart.Items.{
  is_dish, item, add_item, remove_item, raise_qty, replace_qty, set_item, add_one, add_all,
}

abbrev pub dish_ids : List CartItem → List String
dish_ids xs = map (λ i. i.dish_id) xs

abbrev pub IsOnMenu : String → Type 0
IsOnMenu id = is_some (lookup id dish_map) ≡ true

abbrev pub AreItems : List CartItem → Type 0
AreItems [] = Unit
AreItems (i ∷ rest) =
    (includes (dish_ids rest) i.dish_id ≡ false) × (1 ≤ i.qty) × IsOnMenu i.dish_id × AreItems rest

module _ (id : String) where
  includes-map_raise :
      (k : String) (n : ℕ) (xs : List CartItem)
      → includes (dish_ids (map (raise_qty id n) xs)) k ≡ includes (dish_ids xs) k
  includes-map_raise k n [] = refl
  includes-map_raise k n (x ∷ xs) = ground (arith, includes-map_raise k n xs)

  includes-map_replace :
      (k : String) (n : ℕ) (xs : List CartItem)
      → includes (dish_ids (map (replace_qty id n) xs)) k ≡ includes (dish_ids xs) k
  includes-map_replace k n [] = refl
  includes-map_replace k n (x ∷ xs) = ground (arith, includes-map_replace k n xs)

  includes-remove :
      (k : String) (xs : List CartItem)
      → includes (dish_ids xs) k ≡ false
      → includes (dish_ids (remove_item id xs)) k ≡ false
  unfolding remove_item
  includes-remove k [] h = refl
  includes-remove k (x ∷ xs) h = ground (arith, includes-remove k xs)

  includes-push :
      (k : String) (n : ℕ) (xs : List CartItem)
      → includes (dish_ids xs) k ≡ false
      → str_eq id k ≡ false
      → includes (dish_ids (xs ++ item id n ∷ [])) k ≡ false
  includes-push k n [] h e = ground arith
  includes-push k n (x ∷ xs) h e = ground (arith, includes-push k n xs)

  includes-add_one :
      (k : String) (xs : List CartItem)
      → includes (dish_ids xs) k ≡ false
      → str_eq id k ≡ false
      → includes (dish_ids (add_one id xs)) k ≡ false
  unfolding add_one
  includes-add_one k [] h e = ground arith
  includes-add_one k (x ∷ xs) h e = ground (arith, includes-add_one k xs)

  push-AreItems :
      (n : ℕ) (xs : List CartItem)
      → find? (is_dish id) xs ≡ none
      → 1 ≤ n
      → IsOnMenu id
      → AreItems xs
      → AreItems (xs ++ item id n ∷ [])
  push-AreItems n [] e p m h = ground arith
  push-AreItems n (x ∷ xs) e p m h = ground (
    arith,
    push-AreItems n xs,
    includes-push x.dish_id n xs,
    eq_iff id x.dish_id,
    eq_iff x.dish_id id,
  )

  map_raise-AreItems :
      (n : ℕ) (xs : List CartItem) → AreItems xs → AreItems (map (raise_qty id n) xs)
  map_raise-AreItems n [] h = tt
  map_raise-AreItems n (x ∷ xs) h =
      ground (arith, map_raise-AreItems n xs, includes-map_raise x.dish_id n xs)

  map_replace-AreItems :
      (n : ℕ) (xs : List CartItem) → AreItems xs → AreItems (map (replace_qty id (suc n)) xs)
  map_replace-AreItems n [] h = tt
  map_replace-AreItems n (x ∷ xs) h =
      ground (arith, map_replace-AreItems n xs, includes-map_replace x.dish_id (suc n) xs)

  pub remove_item-AreItems : (xs : List CartItem) → AreItems xs → AreItems (remove_item id xs)
  unfolding remove_item
  remove_item-AreItems [] h = tt
  remove_item-AreItems (x ∷ xs) h =
      ground (arith, remove_item-AreItems xs, includes-remove x.dish_id xs)

  pub add_item-AreItems :
      (n : ℕ) (xs : List CartItem) → 1 ≤ n → IsOnMenu id → AreItems xs → AreItems (add_item id n xs)
  unfolding add_item
  add_item-AreItems n xs p m h = elim (Option-cases (find? (is_dish id) xs)) [
    | inl new ↦ rw new (push-AreItems n xs new p m h)
    | inr (i, old) ↦ rw old (map_raise-AreItems n xs h)
  ]

  pub set_item-AreItems : (n : ℤ) (xs : List CartItem) → AreItems xs → AreItems (set_item id n xs)
  unfolding set_item
  set_item-AreItems (pos zero) xs h = remove_item-AreItems xs h
  set_item-AreItems (pos (suc n)) xs h = map_replace-AreItems n xs h
  set_item-AreItems (negsuc n) xs h = remove_item-AreItems xs h

  pub add_one-AreItems : (xs : List CartItem) → IsOnMenu id → AreItems xs → AreItems (add_one id xs)
  unfolding add_one
  add_one-AreItems [] m h = ground arith
  add_one-AreItems (x ∷ xs) m h = ground (
    arith,
    add_one-AreItems xs,
    includes-add_one x.dish_id xs,
    eq_iff id x.dish_id,
    eq_iff x.dish_id id,
  )

pub add_all-AreItems :
    (ids : List String) (xs : List CartItem)
    → All IsOnMenu ids
    → AreItems xs
    → AreItems (add_all ids xs)
unfolding add_all
add_all-AreItems [] xs m h = h
add_all-AreItems (id ∷ ids) xs (m, ms) h =
    add_all-AreItems ids (add_one id xs) ms (add_one-AreItems id xs m h)
