-- ===== src/Orders/Place/Grouping.antt =====
-- The grouping of the cart's lines by restaurant in `placeCart`.
use mathlib.Core.List.{append_assoc, append-nil}
use dinner_rush.Prelude.{
  ℕ, ◌+◌, ◌*◌, String, true, Option, none, some, get_or, List, [], ◌∷◌, ◌++◌, map, ◌≡◌, refl, sym,
  ◌∙◌, ap, str_eq, eq_iff, sum_of, sum_of-append, arith, filter, Bool-cases, inl, inr,
}
use dinner_rush.Prelude.Maps.{
  lookup, insert, keys, no_repeats, no_repeats-insert, sum_of-insert, lookup-insert,
}
use dinner_rush.OrderApi.{PlaceOrderItem}
use dinner_rush.Orders.Ingestion.{IngestItem}
use dinner_rush.Orders.Place.{Group, ingest_item, group_items, items_total}

abbrev lines_of : String → List PlaceOrderItem → List IngestItem
lines_of r items = map ingest_item (filter (λ it. str_eq it.restaurant_id r) items)

abbrev pub line_cents : PlaceOrderItem → ℕ
line_cents it = it.qty * it.unit_price_cents

abbrev group_of : String → List Group → List IngestItem
group_of r groups = get_or (lookup r groups) []

group_items-no_repeats :
    (items : List PlaceOrderItem) (groups : List Group)
    → no_repeats (keys groups) ≡ true
    → no_repeats (keys (group_items items groups)) ≡ true
unfolding group_items
group_items-no_repeats [] groups h = h
group_items-no_repeats (it ∷ items) groups h =
    group_items-no_repeats items _ (no_repeats-insert it.restaurant_id _ groups h)

group_of-insert :
    (it : PlaceOrderItem) (r : String) (groups : List Group)
    → group_of r
        (insert it.restaurant_id (group_of it.restaurant_id groups ++ ingest_item it ∷ []) groups)
      ≡ group_of r groups ++ lines_of r (it ∷ [])
group_of-insert it r groups = elim (Bool-cases (str_eq it.restaurant_id r)) [
  | inl same ↦
      rw
        (lookup-insert it.restaurant_id r (group_of it.restaurant_id groups ++ ingest_item it ∷ [])
          groups)
        (rw same (rw ((eq_iff it.restaurant_id r).0 same) refl))
  | inr other ↦
      rw
        (lookup-insert it.restaurant_id r (group_of it.restaurant_id groups ++ ingest_item it ∷ [])
          groups)
        (rw other (sym (append-nil _)))
]

lines_of-cons :
    (it : PlaceOrderItem) (r : String) (items : List PlaceOrderItem) (l : List IngestItem)
    → l ++ lines_of r (it ∷ []) ++ lines_of r items ≡ l ++ lines_of r (it ∷ items)
lines_of-cons it r items l = elim (Bool-cases (str_eq it.restaurant_id r)) [
  | inl same ↦ rw same (append_assoc l (ingest_item it ∷ []) (lines_of r items))
  | inr other ↦ rw other (ap (λ (k : List IngestItem). k ++ lines_of r items) (append-nil l))
]

group_of-group_items :
    (r : String) (items : List PlaceOrderItem) (groups : List Group)
    → group_of r (group_items items groups) ≡ group_of r groups ++ lines_of r items
unfolding group_items
group_of-group_items r [] groups = sym (append-nil _)
group_of-group_items r (it ∷ items) groups =
    group_of-group_items r items _
    ∙ ap (λ (l : List IngestItem). l ++ lines_of r items) (group_of-insert it r groups)
    ∙ lines_of-cons it r items (group_of r groups)

abbrev pushed : PlaceOrderItem → List Group → List Group
pushed it groups =
    insert it.restaurant_id (group_of it.restaurant_id groups ++ ingest_item it ∷ []) groups

items_total-append :
    (l : List IngestItem) (it : PlaceOrderItem)
    → items_total (l ++ ingest_item it ∷ []) ≡ items_total l + line_cents it
unfolding items_total
items_total-append l it =
    omega (arith, sum_of-append (λ (i : IngestItem). i.qty * i.price_cents) l (ingest_item it ∷ []))

total_or_none :
    (o : Option (List IngestItem))
    → (elim o as (λ _. ℕ) [ none ↦ 0 | some l ↦ items_total l ]) ≡ items_total (get_or o [])
unfolding items_total
total_or_none none = refl
total_or_none (some l) = refl

pushed-total :
    (it : PlaceOrderItem) (groups : List Group)
    → sum_of (λ g. items_total g.1) (pushed it groups)
      ≡ sum_of (λ g. items_total g.1) groups + line_cents it
pushed-total it groups =
    let l : List IngestItem = group_of it.restaurant_id groups ++ ingest_item it ∷ [] in
    omega (
      arith,
      sum_of-insert items_total it.restaurant_id l groups,
      total_or_none (lookup it.restaurant_id groups),
      items_total-append (group_of it.restaurant_id groups) it,
    )

group_items-total :
    (items : List PlaceOrderItem) (groups : List Group)
    → sum_of (λ g. items_total g.1) (group_items items groups)
      ≡ sum_of (λ g. items_total g.1) groups + sum_of line_cents items
unfolding group_items
group_items-total [] groups = omega arith
group_items-total (it ∷ items) groups =
    omega (arith, group_items-total items (pushed it groups), pushed-total it groups)

pub record IsGrouping (items : List PlaceOrderItem) (groups : List Group) : Type 0 where
  pub one_each : no_repeats (keys groups) ≡ true
  pub lines :
      (r : String)
      → get_or (lookup r groups) []
        ≡ map ingest_item (filter (λ it. str_eq it.restaurant_id r) items)
  pub total :
      sum_of (λ g. items_total g.1) groups ≡ sum_of (λ it. it.qty * it.unit_price_cents) items

-- The groups of a cart: one for each restaurant; a restaurant's group holds its lines in the order of
-- the cart; and the amounts of the groups add up to the amount of all the lines.
pub group_items-IsGrouping : (items : List PlaceOrderItem) → IsGrouping items (group_items items [])
group_items-IsGrouping items = record {
  one_each = group_items-no_repeats items [] refl;
  lines = λ r. group_of-group_items r items [];
  total = omega (arith, group_items-total items []);
}
