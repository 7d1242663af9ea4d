-- ===== src/Pages/Confirmation/Tests.antt =====
-- The page of the order of a first visit's cart.
use dinner_rush.Prelude.{true, false, some, none, List, [], ◌∷◌, ◌≡◌, refl, map}
use dinner_rush.Types.{CartItem}
use dinner_rush.Cart.Items.{item}
use dinner_rush.Cart.Totals.{Derived, derive}
use dinner_rush.Cart.Totals.Laws.{derive_total}
use dinner_rush.Prelude.Text.{decimal}
use dinner_rush.Pages.Confirmation.{
  order_base, order_no, loading, screen, timeline, Mark, piece_shape, circle, piece_color,
  confetti_colors, next_steps,
}

abbrev two_kitchens : List CartItem
two_kitchens = item "nonna-1" 2 ∷ item "fuego-1" 1 ∷ []

abbrev derived : Derived
derived = (derive_total two_kitchens 12).0

derived_found : derive two_kitchens 12 ≡ some derived
derived_found = (derive_total two_kitchens 12).1

number : order_no 3 2 ≡ "#CB-2026-4857"
unfolding order_no order_base decimal
number = refl

first_paint : screen false derived 12 ≡ loading
unfolding screen
first_paint = refl

marks :
    (map (λ (m : Mark). m.done) timeline ≡ true ∷ false ∷ false ∷ false ∷ [])
    × (map (λ (m : Mark). m.connector) timeline ≡ some true ∷ some false ∷ some false ∷ none ∷ [])
unfolding timeline
marks = (refl, refl)

first_piece : piece_shape 0 ≡ circle
unfolding piece_shape
first_piece = refl

seventh_piece : piece_color 6 ≡ piece_color 0
unfolding piece_color confetti_colors
seventh_piece = refl

titles :
    map (λ s. s.title) next_steps
    ≡ "Live updates" ∷ "One coordinated drop" ∷ "Reorder in a tap" ∷ []
unfolding next_steps
titles = refl
