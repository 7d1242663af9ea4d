-- ===== src/Cart/Storage.antt =====
-- How the cart provider of customer-web/src/lib/cart-context.tsx starts, reads `localStorage` and
-- writes to it.
use dinner_rush.Prelude.{ℕ, Bool, true, false, Option, some, List, [], ◌∷◌, get_or, ◌≡◌, refl}
use dinner_rush.Types.{CartItem}
use dinner_rush.Cart.{Cart}
use dinner_rush.Cart.Items.{item}

-- What `localStorage.getItem` and `JSON.parse` make of the stored text: nothing there; an exception,
-- also that of reading a field of a parsed `null`; or a value, with its `items` if they are an array
-- and its `headcount` if it is a number. The items of an array that this program wrote are cart items;
-- text that another program wrote under the key is not modelled further.
pub data Stored : Type 0 where
  absent : Stored
  broken : Stored
  parsed : Option (List CartItem) → Option ℕ → Stored

-- The constant that a first visit shows.
abbrev pub seed : Cart
seed = record {
  items = item "fuego-1" 1 ∷ item "sakura-1" 1 ∷ item "verde-2" 1 ∷ [];
  headcount = 40;
  is_cart_open = false;
  just_added = 0;
}

-- The provider with the browser's storage. `rendered` is the cart of the last render, which the
-- effects read; `cart` is the state that the next render shows.
pub record Provider : Type 0 where
  pub cart : Cart
  pub rendered : Cart
  pub hydrated : Bool
  pub did_load : Bool
  pub storage : Stored

-- The first render, over what an earlier visit left.
pub mount : Stored → Provider
mount s = record { cart = seed; rendered = seed; hydrated = false; did_load = false; storage = s }

unfoldable pub load : Stored → Cart → Cart
load absent c = c
load broken c = c
load (parsed items headcount) c = record c {
  items = get_or items c.items;
  headcount = get_or headcount c.headcount;
}

-- The effect that runs once, after the first render.
pub hydrate : Provider → Provider
unfolding load
hydrate p = record p { cart = load p.storage p.cart; did_load = true; hydrated = true }

unfoldable pub save : Bool → Bool → Cart → Stored → Stored
save true false c s = parsed (some c.items) (some c.headcount)
save _ _ c s = s

-- The effect that runs after each render that changes the items or the headcount. The flag says
-- whether `setItem` throws, which leaves the storage as it was.
pub persist : Bool → Provider → Provider
unfolding save
persist throws p = record p { storage = save p.did_load throws p.rendered p.storage }

-- The effects of the first render, in the order in which the component declares them.
pub first_effects : Bool → Provider → Provider
unfolding hydrate persist
first_effects throws p = persist throws (hydrate p)

-- A later render with its effect.
unfoldable pub render : Bool → Provider → Provider
unfolding persist
render throws p = persist throws (record p { rendered = p.cart })

-- A visit until the loaded cart is shown.
unfoldable pub start : Bool → Bool → Stored → Provider
unfolding mount first_effects render
start throws throws' s = render throws' (first_effects throws (mount s))

-- The effects of the first render overwrite the stored cart with the constant, whatever was stored,
-- unless writing throws.
pub first_effects_overwrite :
    (s : Stored)
    → (first_effects false (mount s)).storage ≡ parsed (some seed.items) (some seed.headcount)
unfolding first_effects mount
first_effects_overwrite s = refl

-- A visit shows the stored cart, the constant where nothing is stored or readable, and stores what it
-- shows if the last write does not throw.
pub start_lem :
    (throws : Bool) (s : Stored)
    → let p = start throws false s in
      (p.cart ≡ load s seed)
      × (p.storage ≡ parsed (some (load s seed).items) (some (load s seed).headcount))
unfolding start
start_lem throws s = (refl, refl)

-- Where the effects of the first render run twice, as React runs them in development, every stored
-- cart is lost: the visit shows the constant's items and headcount, and has stored them.
pub second_effects_lose :
    (s : Stored)
    → let p = render false (first_effects false (first_effects false (mount s))) in
      (p.cart.items ≡ seed.items)
      × (p.cart.headcount ≡ seed.headcount)
      × (p.storage ≡ parsed (some seed.items) (some seed.headcount))
unfolding first_effects mount render
second_effects_lose s = (refl, refl, refl)
