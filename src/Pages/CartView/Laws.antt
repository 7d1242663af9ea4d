-- ===== src/Pages/CartView/Laws.antt =====
-- The page of the cart tells the cart's sums, and asks for the servings that are missing.
use dinner_rush.Prelude.{
  ℕ, ◌+◌, ◌-◌, ◌*◌, ◌≤◌, ◌<◌, ◌&&◌, some, List, [], ◌∷◌, map, leb, ltb, sum_of, All, ◌≡◌, refl, sym,
  ◌∙◌, arith, Bool-cases, inl, inr,
}
use dinner_rush.Types.{Dish, CartItem}
use dinner_rush.Cart.Totals.{GroupedRestaurant, Derived, derive}
use dinner_rush.Cart.Totals.Groups.{price_of, IsGroup, derive_groups}
use dinner_rush.Pages.Display.{rows_worth, worth-delivery_amount}
use dinner_rush.Pages.Suggestions.{missing}
use dinner_rush.Pages.Confirmation.Laws.{derive-HasTotal}
use dinner_rush.Pages.Widgets.{meter}
use dinner_rush.Pages.Widgets.Laws.{meter-covered}
use dinner_rush.Pages.CartView.{
  Advice, everyone_covered, add_about, coverage_message, LineCard, line_card, GroupCard, group_card,
  summary_rows, Filled, filled,
}

abbrev pub group_amount : GroupCard → ℕ
group_amount g = sum_of (λ (l : LineCard). l.amount) g.lines

amounts-line_card :
    (ls : List (Dish × ℕ))
    → sum_of (λ (l : LineCard). l.amount) (map line_card ls) ≡ sum_of price_of ls
amounts-line_card [] = refl
amounts-line_card ((d, qty) ∷ ls) = omega (arith, amounts-line_card ls)

group_card-amounts :
    (gs : List GroupedRestaurant)
    → All (λ (g : GroupedRestaurant). IsGroup g.restaurant.id g) gs
    → All (λ (g : GroupCard). group_amount g ≡ g.subtotal) (map group_card gs)
      × (sum_of (λ (g : GroupCard). g.subtotal) (map group_card gs)
          ≡ sum_of (λ (g : GroupedRestaurant). g.subtotal) gs)
unfolding group_card
group_card-amounts [] h = (tt, refl)
group_card-amounts (g ∷ gs) (h, hs) =
    let (rest, sum) = group_card-amounts gs hs in
    ((omega (arith, amounts-line_card g.lines, h.subtotal), rest), omega (arith, sum))

-- What the advice asks for, when `served` is twice the servings: nothing when they reach the guests,
-- else the least whole number of servings with which they do.
abbrev pub IsAdvice : ℕ → ℕ → Advice → Type 0
IsAdvice guests served everyone_covered = 2 * guests ≤ served
IsAdvice guests served (add_about n) =
    (served < 2 * guests)
    × (1 ≤ n)
    × (2 * guests ≤ served + 2 * n)
    × (served + 2 * (n - 1) < 2 * guests)

pub record IsFilled (v : Derived) (guests : ℕ) (p : Filled) : Type 0 where
  groups : All (λ (g : GroupCard). group_amount g ≡ g.subtotal) p.groups
  subtotals : sum_of (λ (g : GroupCard). g.subtotal) p.groups ≡ v.subtotal
  rows : rows_worth p.rows ≡ p.total
  advice : IsAdvice guests v.total_servings p.message
  coverage : p.coverage.covered ≡ v.covered
  recap : p.recap.advice ≡ p.message

covered_as_said :
    (v : Derived) (guests : ℕ)
    → v.covered ≡ (ltb 0 guests && leb (2 * guests) v.total_servings)
    → 1 ≤ guests
    → IsAdvice guests v.total_servings
        (coverage_message v.covered (missing guests v.total_servings))
unfolding coverage_message missing
covered_as_said v guests same some_guests = elim (Bool-cases v.covered) [
  | inl covered ↦ rw covered (ground arith)
  | inr uncovered ↦ rw uncovered (ground arith)
]

-- With at least one guest, the page of a cart tells the cart's sums: the lines of a group amount to its
-- subtotal, the groups to that of the cart, and the rows to the total. Its message asks for nothing
-- when the servings reach the guests, and else for the least number of servings that are missing; the
-- meter and the recap say the same.
pub filled-IsFilled :
    (items : List CartItem) (headcount : ℕ) (v : Derived)
    → derive items headcount ≡ some v
    → 1 ≤ headcount
    → IsFilled v headcount (filled v headcount)
unfolding filled summary_rows meter
filled-IsFilled items headcount v e some_guests =
    let (ids, each, subtotal, _) = derive_groups items headcount e in
    let (groups, sum) = group_card-amounts v.grouped each in
    let same = meter-covered items headcount v e in
    record {
      groups = groups;
      subtotals = sum ∙ subtotal;
      rows =
          omega (arith, derive-HasTotal items headcount v e, worth-delivery_amount v.delivery_fee);
      advice = covered_as_said v headcount (sym same.0) some_guests;
      coverage = same.0;
      recap = refl;
    }
