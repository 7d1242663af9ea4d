-- ===== src/Pages/Display.antt =====
-- What several pages print of a cart: counted words, a cuisine's badge and the amounts of the rows, in
-- customer-web/src/app/order/page.tsx and customer-web/src/app/cart/cart-view.tsx.
use mathlib.Core.Option
use dinner_rush.Prelude.{ℕ, String, Option, List, if◌then◌else◌, ◌==◌, sum_of, ◌≡◌, arith}
use dinner_rush.Prelude.Maps.{lookup}
use dinner_rush.Prelude.Text.{◌+s◌, decimal}
use dinner_rush.Types.{Cuisine, CuisineKey, cuisine_name}
use dinner_rush.Catalog.{cuisine_map}

abbrev pub counted : ℕ → String → String → String
counted n one many = decimal n +s " " +s (if n == 1 then one else many)

-- `cuisineMap[key]`; no key is missing there.
unfoldable pub cuisine_badge : CuisineKey → Option String
unfolding cuisine_map
cuisine_badge key =
    Option.map (λ (c : Cuisine). c.emoji +s " " +s c.label) (lookup (cuisine_name key) cuisine_map)

-- An amount of the invoice; nothing for the delivery is "FREE".
pub data Amount : Type 0 where
  free : Amount
  dollars : ℕ → Amount

pub record Row : Type 0 where
  pub label : String
  pub value : Amount

abbrev pub delivery_amount : ℕ → Amount
delivery_amount fee = if fee == 0 then free else dollars fee

abbrev pub worth : Amount → ℕ
worth free = 0
worth (dollars n) = n

abbrev pub rows_worth : List Row → ℕ
rows_worth rs = sum_of (λ (r : Row). worth r.value) rs

pub worth-delivery_amount : (fee : ℕ) → worth (delivery_amount fee) ≡ fee
worth-delivery_amount fee = ground arith
