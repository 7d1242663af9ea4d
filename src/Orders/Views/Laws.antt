-- ===== src/Orders/Views/Laws.antt =====
-- What the composed view of a cart says of its orders.
use mathlib.Core.List.{append_assoc, append-nil, map-append, Permᴰ}
use dinner_rush.Prelude.{
  ℕ, suc, ◌+◌, String, Bool, true, Option, none, some, is_some, get_or, List, [], ◌∷◌, ◌++◌, map,
  ◌≡◌, ◌⊎◌, inl, inr, refl, sym, ◌∙◌, ap, subst, str_eq, eq_iff, ◌&&◌, sum_of, arith, Occurs,
  flat_map, Bool-cases,
}
use dinner_rush.Prelude.Text.{◌+s◌}
use dinner_rush.Prelude.Sort.{sort, IsOrder, IsSorted, sort-IsSorted, sort-Permᴰ}
use dinner_rush.OrderApi.{CartView, OrderRow, ItemRow, FulfillmentRow, TransitionRow}
use dinner_rush.Orders.Ingestion.{IngestItem}
use dinner_rush.Orders.Status.Laws.{IsAggregate, aggregate_status-IsAggregate}
use dinner_rush.Orders.Views.{
  OrchOrder, OrchTransition, OrchView, Composing, composing, item_row, item_rows, fulfillment_row,
  delivery_row, failure_cause, reason_after, is_truthy, add_view, add_views, number_rows, timeline,
  order_row, compose_views,
}

abbrev rows_of : OrchView → List ItemRow
rows_of v = item_rows v.order 0 v.order.items

abbrev cents_of : OrchView → ℕ
cents_of v = v.order.total_cents

-- A line of an order, as the orchestrator has it and as the view tells it.
pub record Line : Type 0 where
  pub restaurant_id : String
  pub name : Option String
  pub qty : ℕ
  pub cents : ℕ

abbrev pub told_line : ItemRow → Line
told_line r = record {
  restaurant_id = r.restaurant_id;
  name = r.name;
  qty = r.qty;
  cents = r.unit_price_cents;
}

abbrev pub ordered_line : OrchOrder → IngestItem → Line
ordered_line o it = record {
  restaurant_id = get_or o.restaurant_id "";
  name = some it.name;
  qty = it.qty;
  cents = it.price_cents;
}

abbrev pub ordered_lines : OrchView → List Line
ordered_lines v = map (ordered_line v.order) v.order.items

item_rows-told :
    (o : OrchOrder) (i : ℕ) (its : List IngestItem)
    → map told_line (item_rows o i its) ≡ map (ordered_line o) its
unfolding item_rows item_row
item_rows-told o i [] = refl
item_rows-told o i (it ∷ its) = ap (◌∷◌ (ordered_line o it)) (item_rows-told o (suc i) its)

rows_of-told :
    (vs : List OrchView) → map told_line (flat_map rows_of vs) ≡ flat_map ordered_lines vs
rows_of-told [] = refl
rows_of-told (v ∷ vs) =
    map-append told_line (rows_of v) (flat_map rows_of vs)
    ∙ ap (λ (ls : List Line). ls ++ map told_line (flat_map rows_of vs))
        (item_rows-told v.order 0 v.order.items)
    ∙ ap (λ (ls : List Line). ordered_lines v ++ ls) (rows_of-told vs)

-- Each list of the loop is what it was, and then a part for each view.
add_views_lem :
    (c : Composing) (vs : List OrchView)
    → ((add_views c vs).items ≡ c.items ++ flat_map rows_of vs)
      × ((add_views c vs).fulfillments ≡ c.fulfillments ++ map (λ v. fulfillment_row v.order) vs)
      × ((add_views c vs).deliveries ≡ c.deliveries ++ map (λ v. delivery_row v.order) vs)
      × ((add_views c vs).total_cents ≡ c.total_cents + sum_of cents_of vs)
unfolding add_views
add_views_lem c [] = (
  sym (append-nil c.items),
  sym (append-nil c.fulfillments),
  sym (append-nil c.deliveries),
  omega arith,
)
add_views_lem c (v ∷ vs) =
    let (items, fulfillments, deliveries, total) = add_views_lem (add_view c v) vs in
    (
      items ∙ append_assoc c.items (rows_of v) (flat_map rows_of vs),
      fulfillments
          ∙ append_assoc c.fulfillments (fulfillment_row v.order ∷ [])
              (map (λ w. fulfillment_row w.order) vs),
      deliveries
          ∙ append_assoc c.deliveries (delivery_row v.order ∷ [])
              (map (λ w. delivery_row w.order) vs),
      omega (arith, total),
    )

-- An order that failed and says why.
abbrev pub IsExplained : OrchView → Type 0
IsExplained v = (v.order.state ≡ "failed") × (is_truthy (failure_cause v.transitions) ≡ true)

-- A reason that is shown is the cause of an order that failed.
abbrev pub IsReason : List OrchView → String → Type 0
IsReason vs r =
    (v : OrchView) × Occurs v vs × IsExplained v × (failure_cause v.transitions ≡ some r)

add_view-IsReason :
    (c : Composing) (v : OrchView) (vs : List OrchView) (r : String)
    → (add_view c v).failure_reason ≡ some r
    → (c.failure_reason ≡ some r) ⊎ IsReason (v ∷ vs) r
unfolding add_view reason_after
add_view-IsReason c v vs r f =
    elim (Bool-cases (str_eq v.order.state "failed" && is_truthy (failure_cause v.transitions))) [
      | inl h ↦
          inr (
            v,
            inl refl,
            ((eq_iff v.order.state "failed").0 (ground arith), ground arith),
            rw h at f,
          )
      | inr h ↦ inl (rw h at f)
    ]

add_views-IsReason :
    (c : Composing) (vs : List OrchView) (r : String)
    → (add_views c vs).failure_reason ≡ some r
    → (c.failure_reason ≡ some r) ⊎ IsReason vs r
unfolding add_views
add_views-IsReason c [] r e = inl e
add_views-IsReason c (v ∷ vs) r e = elim (add_views-IsReason (add_view c v) vs r e) [
  | inr (w, o, s, f) ↦ inr (w, inr o, s, f)
  | inl f ↦ add_view-IsReason c v vs r f
]

is_truthy-is_some : (o : Option String) → is_truthy o ≡ true → is_some o ≡ true
is_truthy-is_some none h = h
is_truthy-is_some (some s) h = refl

add_view-is_some :
    (c : Composing) (v : OrchView)
    → is_some c.failure_reason ≡ true
    → is_some (add_view c v).failure_reason ≡ true
unfolding add_view reason_after
add_view-is_some c v h = ground (arith, h, is_truthy-is_some (failure_cause v.transitions))

add_views-is_some :
    (c : Composing) (vs : List OrchView)
    → is_some c.failure_reason ≡ true
    → is_some (add_views c vs).failure_reason ≡ true
unfolding add_views
add_views-is_some c [] h = h
add_views-is_some c (v ∷ vs) h = add_views-is_some (add_view c v) vs (add_view-is_some c v h)

add_view-explained :
    (c : Composing) (v : OrchView) → IsExplained v → is_some (add_view c v).failure_reason ≡ true
unfolding add_view reason_after
add_view-explained c v (s, h) =
    ground (
      arith,
      h,
      (eq_iff v.order.state "failed").1 s,
      is_truthy-is_some (failure_cause v.transitions),
    )

add_views-explained :
    (c : Composing) (vs : List OrchView) (v : OrchView)
    → Occurs v vs
    → IsExplained v
    → is_some (add_views c vs).failure_reason ≡ true
unfolding add_views
add_views-explained c [] v o h = elim o [ ]
add_views-explained c (w ∷ vs) v (inl e) h =
    add_views-is_some (add_view c w) vs (add_view-explained c w (subst IsExplained e h))
add_views-explained c (w ∷ vs) v (inr o) h = add_views-explained (add_view c w) vs v o h

-- A transition, as the view tells it.
abbrev pub told_transition : TransitionRow → OrchTransition
told_transition r = record {
  from_state = r.from_state;
  to_state = r.to_state;
  cause = r.cause;
  attempt = r.attempt;
  created_at = r.created_at;
}

number_rows-told : (i : ℕ) (ts : List OrchTransition) → map told_transition (number_rows i ts) ≡ ts
unfolding number_rows
number_rows-told i [] = refl
number_rows-told i (t ∷ ts) = ap (◌∷◌ t) (number_rows-told (suc i) ts)

module _ (collate : String → String → Bool) where
  abbrev pub not_later : OrchTransition → OrchTransition → Bool
  not_later a b = collate a.created_at b.created_at

-- What the view of a cart has to be for these orders.
pub record IsView (collate : String → String → Bool) (vs : List OrchView) (view : CartView)
    : Type 0 where
  pub kitchens : map (λ f. f.id) view.fulfillments ≡ map (λ v. v.order.order_id) vs
  pub couriers : map (λ d. d.id) view.deliveries ≡ map (λ v. v.order.order_id +s "-d") vs
  pub lines : map told_line view.items ≡ flat_map ordered_lines vs
  pub order : OrderRow
  pub shown : view.order ≡ some order
  pub status : IsAggregate (map (λ v. v.order.state) vs) order.status
  pub amount : order.total_cents ≡ sum_of (λ f. f.subtotal_cents) view.fulfillments
  pub paid : order.total_cents ≡ sum_of (λ v. v.order.total_cents) vs
  pub reason : (r : String) → order.failure_reason ≡ some r → IsReason vs r
  pub explained : (v : OrchView) → Occurs v vs → IsExplained v → is_some order.failure_reason ≡ true
  pub transitions : Permᴰ (map told_transition view.transitions) (flat_map (λ v. v.transitions) vs)
  pub in_time : IsSorted (not_later collate) (map told_transition view.transitions)

fulfillment_ids :
    (vs : List OrchView)
    → (map (λ f. f.id) (map (λ v. fulfillment_row v.order) vs) ≡ map (λ v. v.order.order_id) vs)
      × (sum_of (λ f. f.subtotal_cents) (map (λ v. fulfillment_row v.order) vs)
          ≡ sum_of cents_of vs)
unfolding fulfillment_row
fulfillment_ids [] = (refl, refl)
fulfillment_ids (v ∷ vs) =
    let (ids, sum) = fulfillment_ids vs in (ap (◌∷◌ v.order.order_id) ids, omega (arith, sum))

delivery_ids :
    (vs : List OrchView)
    → map (λ d. d.id) (map (λ v. delivery_row v.order) vs) ≡ map (λ v. v.order.order_id +s "-d") vs
unfolding delivery_row
delivery_ids [] = refl
delivery_ids (v ∷ vs) = ap (◌∷◌ (v.order.order_id +s "-d")) (delivery_ids vs)

-- The view of the orders of a cart has a kitchen and a courier for each order; all their lines, each
-- with its restaurant, name, quantity and price, in the order of the orders and of each order's own
-- lines, and no others; the status that their states make up; as its amount the sum of theirs, which is
-- also that of its kitchens; as a failure reason the cause of an order that failed, if one failed and
-- tells a cause, and else none; and a timeline of all their transitions, each once and as the
-- orchestrator has it, in order of time, where `localeCompare` is an order.
pub compose_views-IsView :
    (collate : String → String → Bool) (now token : String) (hc : ℕ) (vs : List OrchView)
    → IsOrder collate
    → IsView collate vs (compose_views collate now token hc vs)
unfolding compose_views order_row timeline
compose_views-IsView collate now token hc vs o =
    let (items, fulfillments, deliveries, total) = add_views_lem composing vs in
    let (ids, sum) = fulfillment_ids vs in
    let in_order : IsOrder (not_later collate) = record {
      total = λ a b. o.total a.created_at b.created_at;
      transitive = λ a b c. o.transitive a.created_at b.created_at c.created_at;
    } in
    let ts = flat_map (λ (v : OrchView). v.transitions) vs in
    let told = number_rows-told 0 (sort (not_later collate) ts) in
    record {
      kitchens = ap (map (λ f. f.id)) fulfillments ∙ ids;
      couriers = ap (map (λ d. d.id)) deliveries ∙ delivery_ids vs;
      lines = ap (map told_line) items ∙ rows_of-told vs;
      order = order_row collate now token hc vs (add_views composing vs);
      shown = refl;
      status = aggregate_status-IsAggregate (map (λ v. v.order.state) vs);
      amount =
          omega (
            arith,
            total,
            sum,
            ap (sum_of (λ (f : FulfillmentRow). f.subtotal_cents)) fulfillments,
          );
      paid = omega (arith, total);
      reason =
          λ r e. elim (add_views-IsReason composing vs r e) [ inl f ↦ absurd (cc) | inr f ↦ f ];
      explained = add_views-explained composing vs;
      transitions = subst (λ us. Permᴰ us ts) (sym told) (sort-Permᴰ (not_later collate) ts);
      in_time =
          subst (IsSorted (not_later collate)) (sym told)
            (sort-IsSorted (not_later collate) in_order ts);
    }
