-- ===== src/Cart/Items.antt =====
-- The updaters of the cart's list of items, customer-web/src/lib/cart-context.tsx.
pub mod Laws
pub mod Invariant
use dinner_rush.Prelude.{
  ℕ, zero, suc, ◌+◌, String, Bool, Option, none, some, List, [], ◌∷◌, ◌++◌, map, str_eq,
  if◌then◌else◌, filter, find?, is_some, not,
}
use dinner_rush.Prelude.Int.{ℤ, pos, negsuc}
use dinner_rush.Types.{CartItem}

abbrev pub is_dish : String → CartItem → Bool
is_dish dish_id i = str_eq i.dish_id dish_id

abbrev pub item : String → ℕ → CartItem
item dish_id qty = record { dish_id = dish_id; qty = qty }

-- `items.find((i) => i.dishId === dishId)?.qty ?? 0`
unfoldable pub qty_in : String → List CartItem → ℕ
qty_in dish_id items = elim (find? (is_dish dish_id) items) [ none ↦ 0 | some i ↦ i.qty ]

abbrev pub raise_qty : String → ℕ → CartItem → CartItem
raise_qty dish_id qty i = if is_dish dish_id i then record i { qty = i.qty + qty } else i

unfoldable pub add_item : String → ℕ → List CartItem → List CartItem
add_item dish_id qty prev =
    if is_some (find? (is_dish dish_id) prev)
    then map (raise_qty dish_id qty) prev
    else prev ++ item dish_id qty ∷ []

unfoldable pub remove_item : String → List CartItem → List CartItem
remove_item dish_id prev = filter (λ i. not (is_dish dish_id i)) prev

abbrev replace_qty : String → ℕ → CartItem → CartItem
replace_qty dish_id qty i = if is_dish dish_id i then record i { qty = qty } else i

unfoldable pub set_item : String → ℤ → List CartItem → List CartItem
unfolding remove_item
set_item dish_id (pos zero) prev = remove_item dish_id prev
set_item dish_id (pos (suc n)) prev = map (replace_qty dish_id (suc n)) prev
set_item dish_id (negsuc n) prev = remove_item dish_id prev

-- One round of the loop of `addBundle`: the first item of the dish gets one more, or a new one is
-- pushed.
unfoldable pub add_one : String → List CartItem → List CartItem
add_one dish_id [] = item dish_id 1 ∷ []
add_one dish_id (i ∷ rest) =
    if is_dish dish_id i then record i { qty = i.qty + 1 } ∷ rest else i ∷ add_one dish_id rest

unfoldable pub add_all : List String → List CartItem → List CartItem
unfolding add_one
add_all [] items = items
add_all (id ∷ ids) items = add_all ids (add_one id items)
