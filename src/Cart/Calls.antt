-- ===== src/Cart/Calls.antt =====
-- The operations of the cart's context as one step, and the invariant that each keeps.
use dinner_rush.Prelude.{
  ℕ, ◌+◌, ◌≤◌, String, some, List, [], ◌∷◌, ◌≡◌, arith, All, Option-cases, inl, inr,
}
use dinner_rush.Prelude.Int.{ℤ, pos, negsuc, ◌+ℤ◌, clamp, sub_ℕ}
use dinner_rush.Prelude.Maps.{lookup}
use dinner_rush.Types.{CuratedBundle}
use dinner_rush.Catalog.{dish_map, bundle_map}
use dinner_rush.Catalog.Integrity.{bundle_map-IsBundle, IsKnownDish}
use dinner_rush.Cart
use dinner_rush.Cart.{Cart}
use dinner_rush.Cart.Items.Invariant.{
  AreItems, IsOnMenu, add_item-AreItems, remove_item-AreItems, set_item-AreItems, add_all-AreItems,
}

-- A call of one of the operations of the context. The quantity of `add` is a whole number from one, as
-- at each of its callers.
pub data Call : Type 0 where
  set_headcount : ℤ → Call
  bump_headcount : ℤ → Call
  add : String → ℕ → Call
  add_bundle : String → Call
  remove : String → Call
  set_qty : String → ℤ → Call
  increment : String → Call
  decrement : String → Call
  clear : Call
  open_cart : Call
  close_cart : Call
  toggle_cart : Call

unfoldable pub run_call : Call → Cart → Cart
unfolding Cart.set_headcount Cart.bump_headcount Cart.add Cart.add_bundle Cart.remove Cart.set_qty
    Cart.increment Cart.decrement Cart.clear Cart.open_cart Cart.close_cart Cart.toggle_cart
run_call (set_headcount n) c = Cart.set_headcount n c
run_call (bump_headcount delta) c = Cart.bump_headcount delta c
run_call (add id qty) c = Cart.add id (qty + 1) c
run_call (add_bundle id) c = Cart.add_bundle id c
run_call (remove id) c = Cart.remove id c
run_call (set_qty id qty) c = Cart.set_qty id qty c
run_call (increment id) c = Cart.increment id c
run_call (decrement id) c = Cart.decrement id c
run_call clear c = Cart.clear c
run_call open_cart c = Cart.open_cart c
run_call close_cart c = Cart.close_cart c
run_call toggle_cart c = Cart.toggle_cart c

-- The items are on the menu, none twice, each at least once; the headcount is from 1 to 500.
pub record IsCart (c : Cart) : Type 0 where
  pub items : AreItems c.items
  pub some_guests : 1 ≤ c.headcount
  pub few_guests : c.headcount ≤ 500

clamp_bounds : (n : ℤ) → (1 ≤ clamp 1 500 n) × (clamp 1 500 n ≤ 500)
clamp_bounds (pos n) = ground arith
clamp_bounds (negsuc n) = omega arith

AreOnMenu : (ids : List String) → All IsKnownDish ids → All IsOnMenu ids
AreOnMenu [] h = tt
AreOnMenu (id ∷ ids) ((d, e), hs) = (rw e, AreOnMenu ids hs)

bundle_serves : (k : String) (b : CuratedBundle) → lookup k bundle_map ≡ some b → b.serves ≤ 500
bundle_serves k b e = (bundle_map-IsBundle k b e).2

pub add-IsCart : (id : String) (n : ℕ) (c : Cart) → IsCart c → IsCart (Cart.add id (n + 1) c)
unfolding Cart.add
add-IsCart id n c h = elim (Option-cases (lookup id dish_map)) [
  | inl off ↦ rw (off, Cart.add) h
  | inr (d, on) ↦
      rw (on, Cart.add)
        (record {
          items = add_item-AreItems id (n + 1) c.items (omega arith) (rw on) h.items;
          some_guests = h.some_guests;
          few_guests = h.few_guests;
        })
]

add_bundle-IsCart : (id : String) (c : Cart) → IsCart c → IsCart (Cart.add_bundle id c)
unfolding Cart.add_bundle
add_bundle-IsCart id c h = elim (Option-cases (lookup id bundle_map)) [
  | inl off ↦ rw (off, Cart.add_bundle) h
  | inr (b, on) ↦
      rw (on, Cart.add_bundle)
        (record {
          items =
              add_all-AreItems b.dish_ids c.items
                (AreOnMenu b.dish_ids (bundle_map-IsBundle id b on).0) h.items;
          some_guests = omega (arith, h.some_guests);
          few_guests = omega (arith, h.few_guests, bundle_serves id b on);
        })
]

-- Every operation keeps the invariant of the cart.
pub run_call-IsCart : (call : Call) (c : Cart) → IsCart c → IsCart (run_call call c)
unfolding run_call
run_call-IsCart (set_headcount n) c h = ground (arith, clamp_bounds n)
run_call-IsCart (bump_headcount delta) c h = ground (arith, clamp_bounds (pos c.headcount +ℤ delta))
run_call-IsCart (add id qty) c h = add-IsCart id qty c h
run_call-IsCart (add_bundle id) c h = add_bundle-IsCart id c h
run_call-IsCart (remove id) c h = ground (arith, remove_item-AreItems id c.items h.items)
run_call-IsCart (set_qty id n) c h = ground (arith, set_item-AreItems id n c.items h.items)
run_call-IsCart (increment id) c h = add-IsCart id 0 c h
run_call-IsCart (decrement id) c h =
    ground (arith, set_item-AreItems id (sub_ℕ (Cart.qty_of id c) 1) c.items h.items)
run_call-IsCart clear c h = ground arith
run_call-IsCart open_cart c h = ground arith
run_call-IsCart close_cart c h = ground arith
run_call-IsCart toggle_cart c h = ground arith
