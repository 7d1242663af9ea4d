-- ===== src/Pages/Confirmation/Laws.antt =====
-- The page of a placed order tells the cart's sums.
use mathlib.Core.Option.{some-injective}
use dinner_rush.Prelude.{
  subst, ℕ, ◌+◌, ◌≤◌, some, List, [], ◌∷◌, map, if◌then◌else◌, flat_map, length, length-append,
  length-take, length-map, take, sum_of, All, ◌≡◌, refl, sym, ◌∙◌, arith, min,
}
use dinner_rush.Types.{Dish, CartItem}
use dinner_rush.Cart.Totals.{GroupedRestaurant, Derived, derive}
use dinner_rush.Cart.Totals.Laws.{derive_total}
use dinner_rush.Cart.Totals.Groups.{price_of, IsGroup, derive_groups}
use dinner_rush.Pages.Display.{rows_worth, worth-delivery_amount}
use dinner_rush.Pages.Confirmation.{
  order_base, Kitchen, kitchens_from, LineView, line_view, Section, section_view, all_thumbs, rows,
  Invoice, invoice,
}

abbrev pub packed_count : Kitchen → ℕ
packed_count k = if k.packed then 1 else 0

abbrev pub section_amount : Section → ℕ
section_amount s = sum_of (λ (l : LineView). l.amount) s.lines

amounts-line_view :
    (ls : List (Dish × ℕ))
    → sum_of (λ (l : LineView). l.amount) (map line_view ls) ≡ sum_of price_of ls
amounts-line_view [] = refl
amounts-line_view ((d, qty) ∷ ls) = omega (arith, amounts-line_view ls)

amounts-section_view :
    (gs : List GroupedRestaurant)
    → All (λ (g : GroupedRestaurant). IsGroup g.restaurant.id g) gs
    → sum_of section_amount (map section_view gs)
      ≡ sum_of (λ (g : GroupedRestaurant). g.subtotal) gs
unfolding section_view
amounts-section_view [] h = refl
amounts-section_view (g ∷ gs) (h, hs) =
    omega (arith, amounts-line_view g.lines, h.subtotal, amounts-section_view gs hs)

dishes-kitchens_from :
    (i : ℕ) (gs : List GroupedRestaurant)
    → sum_of (λ (k : Kitchen). k.dishes) (kitchens_from i gs)
      ≡ length (flat_map (λ (g : GroupedRestaurant). g.lines) gs)
dishes-kitchens_from i [] = refl
dishes-kitchens_from i (g ∷ gs) = omega (
  arith,
  dishes-kitchens_from (i + 1) gs,
  length-append g.lines (flat_map (λ (g : GroupedRestaurant). g.lines) gs),
)

packed_later :
    (i : ℕ) (gs : List GroupedRestaurant) → sum_of packed_count (kitchens_from (i + 1) gs) ≡ 0
packed_later i [] = refl
packed_later i (g ∷ gs) = ground (arith, packed_later (i + 1) gs)

packed_first :
    (gs : List GroupedRestaurant) → sum_of packed_count (kitchens_from 0 gs) ≡ min 1 (length gs)
packed_first [] = refl
packed_first (g ∷ gs) = omega (arith, packed_later 0 gs)

abbrev pub HasTotal : Derived → Type 0
HasTotal v = v.total ≡ v.subtotal + v.delivery_fee + v.service_fee + v.tax

pub derive-HasTotal :
    (items : List CartItem) (headcount : ℕ) (v : Derived)
    → derive items headcount ≡ some v
    → HasTotal v
derive-HasTotal items headcount v e =
    let (u, run, _, _, _, total) = derive_total items headcount in
    subst HasTotal (some-injective _ _ (sym run ∙ e)) total

-- What the page owes to the cart: the lines of the sections amount to the subtotal, and the rows to
-- what is paid; the thumbs and those counted as more are the dishes of the kitchens; and of the
-- kitchens one is packed, unless there is none.
pub record IsInvoice (v : Derived) (p : Invoice) : Type 0 where
  lines : sum_of section_amount p.sections ≡ v.subtotal
  paid : rows_worth p.rows ≡ p.paid
  dishes : length p.thumbs + p.more ≡ sum_of (λ (k : Kitchen). k.dishes) p.kitchens
  few : length p.thumbs ≤ 5
  packed : sum_of packed_count p.kitchens ≡ min 1 (length v.grouped)

-- The page of an order tells the sums of the cart that it is given.
pub invoice-IsInvoice :
    (items : List CartItem) (headcount : ℕ) (v : Derived)
    → derive items headcount ≡ some v
    → IsInvoice v (invoice v headcount)
unfolding invoice all_thumbs rows
invoice-IsInvoice items headcount v e =
    let (ids, each, subtotal, _) = derive_groups items headcount e in
    let all : List (Dish × ℕ) = flat_map (λ g. g.lines) v.grouped in
    record {
      lines = amounts-section_view v.grouped each ∙ subtotal;
      paid =
          omega (arith, derive-HasTotal items headcount v e, worth-delivery_amount v.delivery_fee);
      dishes = ground (
        arith,
        length-map (λ (l : Dish × ℕ). l.0) (take 5 all),
        length-take 5 all,
        dishes-kitchens_from 0 v.grouped,
      );
      few = omega (arith, length-map (λ (l : Dish × ℕ). l.0) (take 5 all), length-take 5 all);
      packed = packed_first v.grouped;
    }

-- The number on the page is from 4800 to 4998, so two orders of different sizes can have the same.
pub order_base-bounds :
    (item_count restaurant_count : ℕ)
    → (4800 ≤ order_base item_count restaurant_count)
      × (order_base item_count restaurant_count ≤ 4998)
      × (order_base (item_count + 199) restaurant_count ≡ order_base item_count restaurant_count)
unfolding order_base
order_base-bounds item_count restaurant_count = (omega arith, omega arith, omega arith)
