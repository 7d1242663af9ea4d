-- ===== src/Cart/Quantities.antt =====
-- What each operation of the cart's context does to every quantity.
use dinner_rush.Prelude.{
  ℕ, ◌+◌, ◌-◌, String, Bool, ◌&&◌, none, some, List, ◌≡◌, refl, str_eq, if◌then◌else◌, is_some,
  find?, eq_iff, Option-cases, inl, inr, arith,
}
use dinner_rush.Prelude.Int.{sub_ℕ}
use dinner_rush.Prelude.Maps.{lookup}
use dinner_rush.Types.{CartItem}
use dinner_rush.Catalog.{dish_map, bundle_map}
use dinner_rush.Cart
use dinner_rush.Cart.{Cart}
use dinner_rush.Cart.Items.{is_dish, qty_in}
use dinner_rush.Cart.Items.Laws.{
  whole, times_in, qty_in-add_item, qty_in-remove_item, qty_in-set_item, qty_in-add_all,
}
use dinner_rush.Cart.Calls.{
  Call, set_headcount, bump_headcount, add, add_bundle, remove, set_qty, increment, decrement,
  clear, open_cart, close_cart, toggle_cart, run_call,
}

abbrev raise : String → String → ℕ → ℕ → ℕ
raise id j n q = if is_some (lookup id dish_map) && str_eq id j then q + n else q

abbrev listed : String → Cart → Bool
listed id c = is_some (find? (is_dish id) c.items)

-- The quantity of the dish `j` after a call, from the quantity before it.
unfoldable pub quantity_after : Call → String → Cart → ℕ
quantity_after (set_headcount n) j c = Cart.qty_of j c
quantity_after (bump_headcount delta) j c = Cart.qty_of j c
quantity_after (add id n) j c = raise id j (n + 1) (Cart.qty_of j c)
quantity_after (add_bundle k) j c =
    Cart.qty_of j c + elim (lookup k bundle_map) [ none ↦ 0 | some b ↦ times_in j b.dish_ids ]
quantity_after (remove id) j c = if str_eq id j then 0 else Cart.qty_of j c
quantity_after (set_qty id n) j c =
    if str_eq id j then (if listed id c then whole n else 0) else Cart.qty_of j c
quantity_after (increment id) j c = raise id j 1 (Cart.qty_of j c)
quantity_after (decrement id) j c = if str_eq id j then Cart.qty_of j c - 1 else Cart.qty_of j c
quantity_after clear j c = 0
quantity_after open_cart j c = Cart.qty_of j c
quantity_after close_cart j c = Cart.qty_of j c
quantity_after toggle_cart j c = Cart.qty_of j c

qty_of-add :
    (id j : String) (n : ℕ) (c : Cart)
    → Cart.qty_of j (Cart.add id n c) ≡ raise id j n (Cart.qty_of j c)
unfolding Cart.add Cart.qty_of
qty_of-add id j n c = ground (arith, qty_in-add_item id j n c.items)

qty_in_unlisted :
    (id : String) (xs : List CartItem) → find? (is_dish id) xs ≡ none → qty_in id xs ≡ 0
unfolding qty_in
qty_in_unlisted id xs h = rw (h, qty_in)

qty_of-decrement :
    (id j : String) (c : Cart)
    → Cart.qty_of j (Cart.decrement id c)
      ≡ (if str_eq id j then Cart.qty_of j c - 1 else Cart.qty_of j c)
unfolding Cart.decrement
qty_of-decrement id j c = ground (
  arith,
  qty_in-set_item id j (sub_ℕ (qty_in id c.items) 1) c.items,
  eq_iff id j,
  qty_in_unlisted id c.items,
)

-- Every operation changes the quantities as `quantity_after` says, for every dish and in every state:
-- an unknown dish or bundle changes none, and no operation touches another dish than its own.
pub qty_of-run_call :
    (call : Call) (j : String) (c : Cart)
    → Cart.qty_of j (run_call call c) ≡ quantity_after call j c
unfolding run_call quantity_after Cart.qty_of qty_in
qty_of-run_call (set_headcount n) j c = refl
qty_of-run_call (bump_headcount delta) j c = refl
qty_of-run_call (add id n) j c = qty_of-add id j (n + 1) c
qty_of-run_call (add_bundle k) j c = elim (Option-cases (lookup k bundle_map)) [
  | inl off ↦ ground arith
  | inr (b, on) ↦ ground (arith, qty_in-add_all j b.dish_ids c.items)
]
qty_of-run_call (remove id) j c = qty_in-remove_item id j c.items
qty_of-run_call (set_qty id n) j c = qty_in-set_item id j n c.items
qty_of-run_call (increment id) j c = qty_of-add id j 1 c
qty_of-run_call (decrement id) j c = qty_of-decrement id j c
qty_of-run_call clear j c = refl
qty_of-run_call open_cart j c = refl
qty_of-run_call close_cart j c = refl
qty_of-run_call toggle_cart j c = refl
