-- ===== src/Cart.antt =====
-- The cart, customer-web/src/lib/cart-context.tsx: the provider's state and its operations. Each
-- operation returns the next state. The list updaters are in Cart/Items, the derived values in
-- Cart/Totals, the hydration from `localStorage` and its writing in Cart/Storage.
pub mod Items
pub mod Bundles
pub mod Totals
pub mod Storage
pub mod Calls
pub mod Quantities
pub mod Sessions
mod Tests
use dinner_rush.Prelude.{
  ℕ, suc, ◌+◌, ◌-◌, String, Bool, not, true, false, Option, none, some, List, [], max,
}
use dinner_rush.Prelude.Int.{ℤ, pos, sub_ℕ, ◌+ℤ◌, clamp}
use dinner_rush.Prelude.Maps.{lookup}
use dinner_rush.Types.{CartItem}
use dinner_rush.Catalog.{dish_map, bundle_map}
use Items.{add_item, add_all, remove_item, set_item, qty_in}

pub record Cart : Type 0 where
  pub items : List CartItem
  pub headcount : ℕ
  pub is_cart_open : Bool
  pub just_added : ℕ

-- `Math.max(1, Math.min(500, n))`; the argument of every caller is a whole number, which
-- `Math.round` keeps.
unfoldable pub set_headcount : ℤ → Cart → Cart
set_headcount n c = record c { headcount = clamp 1 500 n }

unfoldable pub bump_headcount : ℤ → Cart → Cart
bump_headcount delta c = record c { headcount = clamp 1 500 (pos c.headcount +ℤ delta) }

unfoldable pub add : String → ℕ → Cart → Cart
add dish_id qty c = elim (lookup dish_id dish_map) [
  | none ↦ c
  | some _ ↦ record c { items = add_item dish_id qty c.items; just_added = c.just_added + 1 }
]

-- The updater of the items is here the pure function that Cart/Bundles shows it to compute.
unfoldable pub add_bundle : String → Cart → Cart
add_bundle bundle_id c = elim (lookup bundle_id bundle_map) [
  | none ↦ c
  | some bundle ↦ record c {
    items = add_all bundle.dish_ids c.items;
    headcount = max c.headcount bundle.serves;
    just_added = c.just_added + 1;
  }
]

unfoldable pub remove : String → Cart → Cart
remove dish_id c = record c { items = remove_item dish_id c.items }

unfoldable pub set_qty : String → ℤ → Cart → Cart
set_qty dish_id qty c = record c { items = set_item dish_id qty c.items }

unfoldable pub increment : String → Cart → Cart
unfolding add
increment dish_id c = add dish_id 1 c

-- `qtyOf`, over the items of the last render.
unfoldable pub qty_of : String → Cart → ℕ
qty_of dish_id c = qty_in dish_id c.items

-- The handler reads the items of the last render; the events that call it are handled one at a time,
-- so those are the items of the state.
unfoldable pub decrement : String → Cart → Cart
unfolding set_qty qty_of
decrement dish_id c = set_qty dish_id (sub_ℕ (qty_of dish_id c) 1) c

unfoldable pub clear : Cart → Cart
clear c = record c { items = [] }

pub open_cart : Cart → Cart
open_cart c = record c { is_cart_open = true }

pub close_cart : Cart → Cart
close_cart c = record c { is_cart_open = false }

pub toggle_cart : Cart → Cart
toggle_cart c = record c { is_cart_open = not c.is_cart_open }
