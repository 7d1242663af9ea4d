-- ===== src/Pages/Estimate/Tests.antt =====
-- Two chosen dishes, added to the cart that a first visit shows.
use dinner_rush.Prelude.{◌+◌, String, some, List, [], ◌∷◌, ◌≡◌, refl, sum_of}
use dinner_rush.Catalog.{dish_map}
use dinner_rush.Cart.Calls.{IsCart}
use dinner_rush.Cart.Storage.{seed}
use dinner_rush.Cart.Sessions.{seed-IsCart}
use dinner_rush.Cart.Totals.Laws.{line_price}
use dinner_rush.Pages.Configurator.{est_total, add_chosen}
use dinner_rush.Pages.Estimate.{add_chosen-price}

abbrev ids : List String
ids = "nonna-1" ∷ "fuego-1" ∷ []

estimated : est_total 10 ids ≡ some 284
unfolding est_total dish_map
estimated = refl

add_chosen-price_example :
    IsCart (add_chosen 10 ids seed)
    × (sum_of line_price (add_chosen 10 ids seed).items ≡ sum_of line_price seed.items + 284)
add_chosen-price_example = add_chosen-price 10 ids seed 284 seed-IsCart estimated
