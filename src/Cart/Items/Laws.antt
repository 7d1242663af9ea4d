-- ===== src/Cart/Items/Laws.antt =====
-- What the updaters of the cart's list of items do to the quantities.
use dinner_rush.Prelude.{
  ℕ, zero, suc, ◌+◌, String, true, none, List, [], ◌∷◌, ◌++◌, map, ◌≡◌, refl, str_eq, eq_iff,
  if◌then◌else◌, find?, arith, is_some, Option-cases, inl, inr, ◌&&◌,
}
use dinner_rush.Prelude.Int.{ℤ, pos, negsuc}
use dinner_rush.Types.{CartItem}
use dinner_rush.Cart.Items.{
  is_dish, item, qty_in, add_item, remove_item, replace_qty, raise_qty, set_item, add_one, add_all,
}

-- The value of a `setQty`: nothing below one.
abbrev pub whole : ℤ → ℕ
whole (pos n) = n
whole (negsuc n) = 0

-- How often a dish is listed.
abbrev pub times_in : String → List String → ℕ
times_in k [] = 0
times_in k (x ∷ xs) = (if str_eq x k then 1 else 0) + times_in k xs

qty_in-push :
    (id j : String) (n : ℕ) (xs : List CartItem)
    → find? (is_dish id) xs ≡ none
    → qty_in j (xs ++ item id n ∷ []) ≡ (if str_eq id j then qty_in j xs + n else qty_in j xs)
unfolding qty_in
qty_in-push id j n [] h = ground (arith, eq_iff id j)
qty_in-push id j n (x ∷ xs) h =
    ground (arith, qty_in-push id j n xs, eq_iff id j, eq_iff x.dish_id id, eq_iff x.dish_id j)

qty_in-raise :
    (id j : String) (n : ℕ) (xs : List CartItem)
    → qty_in j (map (raise_qty id n) xs)
      ≡ (if str_eq id j && is_some (find? (is_dish id) xs) then qty_in j xs + n else qty_in j xs)
unfolding qty_in
qty_in-raise id j n [] = ground arith
qty_in-raise id j n (x ∷ xs) =
    ground (arith, qty_in-raise id j n xs, eq_iff id j, eq_iff x.dish_id id, eq_iff x.dish_id j)

-- `add` changes the quantity of its own dish alone, and by `qty`, listed before or not.
pub qty_in-add_item :
    (id j : String) (n : ℕ) (xs : List CartItem)
    → qty_in j (add_item id n xs) ≡ (if str_eq id j then qty_in j xs + n else qty_in j xs)
unfolding add_item
qty_in-add_item id j n xs = elim (Option-cases (find? (is_dish id) xs)) [
  | inl new ↦ rw new (qty_in-push id j n xs new)
  | inr (i, old) ↦ rw old (ground (arith, qty_in-raise id j n xs))
]

pub qty_in-remove_item :
    (id j : String) (xs : List CartItem)
    → qty_in j (remove_item id xs) ≡ (if str_eq id j then 0 else qty_in j xs)
unfolding qty_in remove_item
qty_in-remove_item id j [] = ground arith
qty_in-remove_item id j (x ∷ xs) =
    ground (arith, qty_in-remove_item id j xs, eq_iff id j, eq_iff x.dish_id id, eq_iff x.dish_id j)

qty_in-absent :
    (id j : String) (xs : List CartItem)
    → str_eq id j ≡ true
    → find? (is_dish id) xs ≡ none
    → qty_in j xs ≡ 0
unfolding qty_in
qty_in-absent id j [] e h = refl
qty_in-absent id j (x ∷ xs) e h =
    ground (arith, qty_in-absent id j xs e, eq_iff id j, eq_iff x.dish_id id, eq_iff x.dish_id j)

qty_in-replace :
    (id j : String) (n : ℕ) (xs : List CartItem)
    → qty_in j (map (replace_qty id n) xs)
      ≡ (if str_eq id j && is_some (find? (is_dish id) xs) then n else qty_in j xs)
unfolding qty_in
qty_in-replace id j n [] = ground arith
qty_in-replace id j n (x ∷ xs) =
    ground (arith, qty_in-replace id j n xs, eq_iff id j, eq_iff x.dish_id id, eq_iff x.dish_id j)

pub qty_in-add_one :
    (id j : String) (xs : List CartItem)
    → qty_in j (add_one id xs) ≡ (if str_eq id j then qty_in j xs + 1 else qty_in j xs)
unfolding qty_in add_one
qty_in-add_one id j [] = ground (arith, eq_iff id j)
qty_in-add_one id j (x ∷ xs) =
    ground (arith, qty_in-add_one id j xs, eq_iff id j, eq_iff x.dish_id id, eq_iff x.dish_id j)

-- `setQty` to a whole number above zero replaces the quantity of a listed dish, and lists no new one;
-- any other number removes the dish. No other dish changes.
pub qty_in-set_item :
    (id j : String) (n : ℤ) (xs : List CartItem)
    → qty_in j (set_item id n xs) ≡ (
        if str_eq id j
        then (if is_some (find? (is_dish id) xs) then whole n else 0)
        else qty_in j xs)
unfolding set_item
qty_in-set_item id j (pos zero) xs = ground (arith, qty_in-remove_item id j xs)
qty_in-set_item id j (pos (suc n)) xs =
    ground (arith, qty_in-replace id j (suc n) xs, qty_in-absent id j xs)
qty_in-set_item id j (negsuc n) xs = ground (arith, qty_in-remove_item id j xs)

-- A bundle adds one of a dish for each time that it lists it.
pub qty_in-add_all :
    (j : String) (ids : List String) (xs : List CartItem)
    → qty_in j (add_all ids xs) ≡ qty_in j xs + times_in j ids
unfolding add_all
qty_in-add_all j [] xs = omega arith
qty_in-add_all j (id ∷ ids) xs =
    ground (arith, qty_in-add_all j ids (add_one id xs), qty_in-add_one id j xs)
