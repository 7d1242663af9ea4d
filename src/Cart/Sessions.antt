-- ===== src/Cart/Sessions.antt =====
-- Visits to the storefront: any sequence of cart operations, over storage that earlier visits wrote.
use dinner_rush.Prelude.{◌≤◌, Bool, true, false, none, some, List, [], ◌∷◌, ◌≡◌, refl, arith}
use dinner_rush.Catalog.{dish_map}
use dinner_rush.Cart.{Cart}
use dinner_rush.Cart.Items.Invariant.{AreItems}
use dinner_rush.Cart.Calls.{Call, run_call, IsCart, run_call-IsCart}
use dinner_rush.Cart.Storage.{
  Stored, absent, broken, parsed, Provider, seed, load, save, render, start,
}

-- One event of a browser: an operation with the render that follows, or a visit that starts anew over
-- the storage. The flags say which of the writes throw.
pub data Event : Type 0 where
  operate : Call → Bool → Event
  visit : Bool → Bool → Event

pub run_event : Event → Provider → Provider
unfolding run_call render start
run_event (operate call throws) p = render throws (record p { cart = run_call call p.cart })
run_event (visit throws throws') p = start throws throws' p.storage

unfoldable pub run_events : List Event → Provider → Provider
unfolding run_event
run_events [] p = p
run_events (e ∷ es) p = run_events es (run_event e p)

abbrev pub IsStored : Stored → Type 0
IsStored (parsed (some items) (some headcount)) =
    AreItems items × (1 ≤ headcount) × (headcount ≤ 500)
IsStored absent = Unit
IsStored broken = Unit
IsStored (parsed _ _) = ⊥

pub record IsProvider (p : Provider) : Type 0 where
  pub cart : IsCart p.cart
  pub stored : IsStored p.storage
  pub loaded : p.did_load ≡ true

pub seed-IsCart : IsCart seed
unfolding dish_map
seed-IsCart = record {
  items = (refl, omega arith, refl, (refl, omega arith, refl, (refl, omega arith, refl, tt)));
  some_guests = omega arith;
  few_guests = omega arith;
}

load-IsCart : (s : Stored) → IsStored s → IsCart (load s seed)
unfolding load
load-IsCart absent h = seed-IsCart
load-IsCart broken h = seed-IsCart
load-IsCart (parsed none g) h = absurd h
load-IsCart (parsed (some i) none) h = absurd h
load-IsCart (parsed (some i) (some g)) h = ground arith

save-IsStored :
    (did throws : Bool) (c : Cart) (s : Stored)
    → IsCart c
    → IsStored s
    → IsStored (save did throws c s)
unfolding save
save-IsStored true false c s h k = ground arith
save-IsStored true true c s h k = k
save-IsStored false _ c s h k = k

start-IsProvider :
    (throws throws' : Bool) (s : Stored) → IsStored s → IsProvider (start throws throws' s)
unfolding start
start-IsProvider throws throws' s h = record {
  cart = load-IsCart s h;
  stored =
      save-IsStored true throws' (load s seed) _ (load-IsCart s h)
        (save-IsStored true throws seed s seed-IsCart h);
  loaded = refl;
}

render-IsProvider :
    (throws : Bool) (p : Provider) (c : Cart)
    → IsProvider p
    → IsCart c
    → IsProvider (render throws (record p { cart = c }))
unfolding render
render-IsProvider throws p c h k = record {
  cart = k;
  stored = save-IsStored p.did_load throws c p.storage k h.stored;
  loaded = h.loaded;
}

run_event-IsProvider : (e : Event) (p : Provider) → IsProvider p → IsProvider (run_event e p)
unfolding run_event
run_event-IsProvider (operate call throws) p h =
    render-IsProvider throws p (run_call call p.cart) h (run_call-IsCart call p.cart h.cart)
run_event-IsProvider (visit throws throws') p h = start-IsProvider throws throws' p.storage h.stored

run_events-IsProvider :
    (es : List Event) (p : Provider) → IsProvider p → IsProvider (run_events es p)
unfolding run_events
run_events-IsProvider [] p h = h
run_events-IsProvider (e ∷ es) p h =
    run_events-IsProvider es (run_event e p) (run_event-IsProvider e p h)

-- In every state of a browser that only this storefront wrote to, after any events and whichever
-- writes threw, the cart satisfies its invariant, and so does what is stored.
pub browser_IsProvider :
    (throws throws' : Bool) (es : List Event)
    → IsProvider (run_events es (start throws throws' absent))
browser_IsProvider throws throws' es =
    run_events-IsProvider es (start throws throws' absent)
      (start-IsProvider throws throws' absent tt)
