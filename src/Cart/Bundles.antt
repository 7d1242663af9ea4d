-- ===== src/Cart/Bundles.antt =====
-- The items updater of `addBundle`, customer-web/src/lib/cart-context.tsx, with its objects explicit:
-- `[...prev]` copies references, and `existing.qty += 1` writes to an object that `prev` shares.
pub mod Refinement
pub mod Sharing
use dinner_rush.Prelude.{
  ℕ, zero, suc, ◌+◌, String, Option, none, some, List, [], ◌∷◌, ◌++◌, str_eq, if◌then◌else◌, length,
  get_elem?,
}
use dinner_rush.Types.{CartItem}
use dinner_rush.Cart.Items.{is_dish, item}

-- The item objects in the order of their creation; a reference is a place in this list.
abbrev pub Store : Type 0
Store = List CartItem

-- A state's array of items is a list of references, and this is what a render reads through it.
abbrev pub read : Store → List ℕ → List CartItem
read h [] = []
read h (r ∷ rs) = elim (get_elem? h r) [ none ↦ read h rs | some i ↦ i ∷ read h rs ]

-- `next.find((i) => i.dishId === dishId)`
unfoldable pub find_ref : String → Store → List ℕ → Option ℕ
find_ref dish_id h [] = none
find_ref dish_id h (r ∷ rs) = elim (get_elem? h r) [
  | none ↦ find_ref dish_id h rs
  | some i ↦ if is_dish dish_id i then some r else find_ref dish_id h rs
]

-- `existing.qty += 1`
pub bump : Store → ℕ → Store
bump [] r = []
bump (i ∷ h) zero = record i { qty = i.qty + 1 } ∷ h
bump (i ∷ h) (suc r) = i ∷ bump h r

pub bundle_round : String → Store → List ℕ → Store × List ℕ
unfolding find_ref bump
bundle_round dish_id h next = elim (find_ref dish_id h next) [
  | none ↦ (h ++ item dish_id 1 ∷ [], next ++ length h ∷ [])
  | some r ↦ (bump h r, next)
]

-- The updater, run on the store and the references of `prev`.
pub update_bundle : List String → Store → List ℕ → Store × List ℕ
unfolding bundle_round
update_bundle [] h next = (h, next)
update_bundle (id ∷ ids) h next =
    let (h', next') = bundle_round id h next in update_bundle ids h' next'
