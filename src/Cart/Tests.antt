-- ===== src/Cart/Tests.antt =====
-- The cart's theorems on the cart that a first visit shows, with one operation.
use dinner_rush.Prelude.{
  ℕ, ◌+◌, ◌*◌, ◌≤◌, ◌<◌, true, false, some, List, [], ◌∷◌, ◌≡◌, ◌⊎◌, refl, arith, sum_of, All,
}
use dinner_rush.Prelude.Maps.{no_repeats}
use dinner_rush.Prelude.Doubles.{times_round}
use dinner_rush.Types.{CartItem}
use dinner_rush.Cart
use dinner_rush.Cart.{Cart}
use dinner_rush.Cart.Items.{item, add_all, qty_in}
use dinner_rush.Cart.Items.Laws.{times_in}
use dinner_rush.Cart.Bundles.{read, find_ref, update_bundle}
use dinner_rush.Cart.Bundles.Refinement.{AreRefs, read-update_bundle}
use dinner_rush.Cart.Bundles.Sharing.{second_run_counts_twice}
use dinner_rush.Cart.Totals.{
  Derived, GroupedRestaurant, derive, delivery_fee_of, service_fee_of, tax_of,
}
use dinner_rush.Cart.Totals.Laws.{derive_total, fees_lem}
use dinner_rush.Cart.Totals.Groups.{IsGroup, derive_groups}
use dinner_rush.Cart.Storage.{
  parsed, seed, mount, first_effects, render, start, absent, second_effects_lose,
}
use dinner_rush.Cart.Calls.{Call, run_call}
use dinner_rush.Cart.Quantities.{quantity_after, qty_of-run_call}
use dinner_rush.Cart.Sessions.{Event, run_events, IsProvider, browser_IsProvider}

abbrev events : List Event
events = Event.operate (Call.add "nonna-1" 1) false ∷ Event.visit true false ∷ []

browser_IsProvider_example : IsProvider (run_events events (start false true absent))
browser_IsProvider_example = browser_IsProvider false true events

qty_of-run_call_example :
    Cart.qty_of "fuego-1" (run_call (Call.decrement "fuego-1") seed)
    ≡ quantity_after (Call.decrement "fuego-1") "fuego-1" seed
qty_of-run_call_example = qty_of-run_call (Call.decrement "fuego-1") "fuego-1" seed

fees_lem_example :
    ((1 ≤ 249) × (249 < 250) → delivery_fee_of 249 ≡ 35)
    × ((◌≡◌ {A = ℕ} 249 0) ⊎ (250 ≤ 249) → delivery_fee_of 249 ≡ 0)
    × (100 * service_fee_of 249 ≤ 7 * 249 + 50)
    × (7 * 249 ≤ 100 * service_fee_of 249 + 50)
    × (10000 * tax_of 249 ≤ 875 * 249 + 5000)
    × (875 * 249 ≤ 10000 * tax_of 249 + 5000)
fees_lem_example = fees_lem 249 (omega arith)

-- The derived values of the first visit's cart.
abbrev derived : Derived
derived = (derive_total seed.items 40).0

derived_found : derive seed.items 40 ≡ some derived
derived_found = (derive_total seed.items 40).1

tax_of_360 : tax_of 360 ≡ 31
unfolding tax_of times_round
tax_of_360 = refl

derive_groups_example :
    (no_repeats derived.restaurant_ids ≡ true)
    × All (λ (g : GroupedRestaurant). IsGroup g.restaurant.id g) derived.grouped
    × (sum_of (λ (g : GroupedRestaurant). g.subtotal) derived.grouped ≡ derived.subtotal)
    × (sum_of (λ (g : GroupedRestaurant). g.servings) derived.grouped ≡ derived.total_servings)
derive_groups_example = derive_groups seed.items 40 derived_found

abbrev store : List CartItem
store = item "nonna-1" 2 ∷ item "slice-1" 1 ∷ []

store-AreRefs : AreRefs store (0 ∷ 1 ∷ [])
store-AreRefs = (omega arith, refl, (omega arith, refl, tt))

read-update_bundle_example :
    let (h', next) = update_bundle ("nonna-1" ∷ "olive-1" ∷ []) store (0 ∷ 1 ∷ []) in
    (read h' next ≡ add_all ("nonna-1" ∷ "olive-1" ∷ []) (read store (0 ∷ 1 ∷ [])))
    × AreRefs h' next
read-update_bundle_example =
    read-update_bundle ("nonna-1" ∷ "olive-1" ∷ []) store (0 ∷ 1 ∷ []) store-AreRefs

second_run_counts_twice_example :
    let h' = (update_bundle ("nonna-1" ∷ []) store (0 ∷ 1 ∷ [])).0 in
    let (h'', next) = update_bundle ("nonna-1" ∷ []) h' (0 ∷ 1 ∷ []) in
    qty_in "nonna-1" (read h'' next)
    ≡ qty_in "nonna-1" (read store (0 ∷ 1 ∷ [])) + 2 * times_in "nonna-1" ("nonna-1" ∷ [])
unfolding find_ref
second_run_counts_twice_example =
    second_run_counts_twice "nonna-1" ("nonna-1" ∷ []) store (0 ∷ 1 ∷ []) store-AreRefs refl

second_effects_lose_example :
    let p =
      render false
        (first_effects false (first_effects false (mount (parsed (some store) (some 12))))) in
    (p.cart.items ≡ seed.items)
    × (p.cart.headcount ≡ seed.headcount)
    × (p.storage ≡ parsed (some seed.items) (some seed.headcount))
second_effects_lose_example = second_effects_lose (parsed (some store) (some 12))
