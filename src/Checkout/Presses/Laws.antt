-- ===== src/Checkout/Presses/Laws.antt =====
-- What the checkout posts over time, and when it stops.
use dinner_rush.Prelude.{
  ◌+◌, String, Bool, true, false, Option, none, is_some, List, [], ◌∷◌, length, length-append,
  if◌then◌else◌, ◌==◌, All, All-append, ◌≡◌, refl, ap, sym, subst, ◌∙◌, ◌⊎◌, arith, Bool-cases,
  Option-cases, inl, inr,
}
use dinner_rush.Cart.{Cart}
use dinner_rush.Cart.Calls.{Call, run_call, IsCart, run_call-IsCart}
use dinner_rush.OrderApi.{PlaceOrderResult, Outcome, ok, error}
use dinner_rush.Checkout.{FormState, place_input, Submitting, begin_order, settle_order}
use dinner_rush.Checkout.Presses.{
  Page, opened, is_disabled, Event, typed, hydrates, changed, pressed, answered, press, answer,
  step, run_page, is_placed, IsPosted, IsCheckout,
}

begin_order-posted :
    (key : String) (form : FormState) (s : Submitting)
    → IsCart s.cart
    → All (IsPosted key) s.posted
    → All (IsPosted key) (begin_order key form s).posted
unfolding begin_order place_input
begin_order-posted key form s cart h =
    elim (Bool-cases (length (place_input key form s.cart).items == 0)) [
      | inl empty ↦ rw empty h
      | inr filled ↦ rw filled (
          All-append (IsPosted key) s.posted (place_input key form s.cart ∷ []) h (
            record {
              form = form;
              cart = s.cart;
              well_formed = cart;
              made = refl;
              keyed = refl;
              filled = ground (arith, filled);
            },
            tt,
          ))
    ]

begin_order-pushed :
    (key : String) (form : FormState) (s : Submitting) → (begin_order key form s).pushed ≡ s.pushed
unfolding begin_order
begin_order-pushed key form s = ground arith

begin_order-cart :
    (key : String) (form : FormState) (s : Submitting) → (begin_order key form s).cart ≡ s.cart
unfolding begin_order
begin_order-cart key form s = ground arith

-- An order is posted and waited for, or none is.
begin_order-cases :
    (key : String) (form : FormState) (s : Submitting)
    → let u = begin_order key form s in
      ((length u.posted ≡ length s.posted) × (u.placing ≡ false))
      ⊎ ((length u.posted ≡ length s.posted + 1) × (u.placing ≡ true))
unfolding begin_order
begin_order-cases key form s = elim (Bool-cases (length (place_input key form s.cart).items == 0)) [
  | inl empty ↦ rw empty (inl (refl, refl))
  | inr filled ↦ rw filled (inr (length-append s.posted (place_input key form s.cart ∷ []), refl))
]

-- Where the button is enabled, no request is under way and no order is placed.
enabled_idle :
    (key : String) (p : Page)
    → is_disabled p ≡ false
    → IsCheckout key p
    → (p.waiting ≡ 0) × (is_placed p ≡ 0)
unfolding is_disabled
enabled_idle key p enabled h =
    let idle : (p.waiting + is_placed p == 1) ≡ false = ground (arith, enabled, h.placing) in
    let none_left : p.waiting + is_placed p ≡ 0 = ground (arith, idle, h.one) in
    (omega (arith, none_left), omega (arith, none_left))

press-IsCheckout :
    (key : String) (p : Page)
    → is_disabled p ≡ false
    → IsCheckout key p
    → IsCheckout key (press key p)
unfolding press
press-IsCheckout key p enabled h =
    let (idle, unplaced) = enabled_idle key p enabled h in
    let same : is_placed (press key p) ≡ 0 =
      ap (λ (o : Option String). if is_some o then 1 else 0) (begin_order-pushed key p.form p.state)
      ∙ unplaced in
    let cart = subst IsCart (sym (begin_order-cart key p.form p.state)) h.cart in
    let posted = begin_order-posted key p.form p.state h.cart h.posted in
    elim (begin_order-cases key p.form p.state) [
      | inl (grown, placing) ↦ record {
        cart = cart;
        posted = posted;
        counted = omega (arith, grown, same, h.counted, idle, unplaced);
        one = omega (arith, grown, same, idle);
        placing = placing ∙ ground (arith, grown, same, idle);
      }
      | inr (grown, placing) ↦ record {
        cart = cart;
        posted = posted;
        counted = omega (arith, grown, same, h.counted, idle, unplaced);
        one = omega (arith, grown, same, idle);
        placing = placing ∙ ground (arith, grown, same, idle);
      }
    ]

answer-IsCheckout :
    (key : String) (r : Outcome PlaceOrderResult) (p : Page)
    → (p.waiting == 0) ≡ false
    → IsCheckout key p
    → IsCheckout key (answer r p)
unfolding answer settle_order run_call
answer-IsCheckout key (ok r) p w h =
    let unplaced : is_placed p ≡ 0 = ground (arith, w, h.one) in
    let waits : p.waiting ≡ 1 = ground (arith, w, h.one) in
    record {
      cart = run_call-IsCart Call.clear p.state.cart h.cart;
      posted = h.posted;
      counted = omega (arith, h.counted, unplaced, waits);
      one = omega (arith, waits);
      placing = h.placing ∙ ground (arith, waits, unplaced);
    }
answer-IsCheckout key (error m) p w h =
    let unplaced : is_placed p ≡ 0 = ground (arith, w, h.one) in
    let waits : p.waiting ≡ 1 = ground (arith, w, h.one) in
    record {
      cart = h.cart;
      posted = h.posted;
      counted = omega (arith, h.counted, unplaced, waits);
      one = omega (arith, waits, unplaced);
      placing = ground (arith, waits, unplaced);
    }

step-IsCheckout :
    (key : String) (e : Event) (p : Page) → IsCheckout key p → IsCheckout key (step key e p)
unfolding step
step-IsCheckout key (typed form) p h = record {
  cart = h.cart;
  posted = h.posted;
  counted = h.counted;
  one = h.one;
  placing = h.placing;
}
step-IsCheckout key hydrates p h = record {
  cart = h.cart;
  posted = h.posted;
  counted = h.counted;
  one = h.one;
  placing = h.placing;
}
step-IsCheckout key (changed call) p h = record {
  cart = run_call-IsCart call p.state.cart h.cart;
  posted = h.posted;
  counted = h.counted;
  one = h.one;
  placing = h.placing;
}
step-IsCheckout key pressed p h = elim (Bool-cases (is_disabled p)) [
  | inl disabled ↦ rw disabled h
  | inr enabled ↦ rw enabled (press-IsCheckout key p enabled h)
]
step-IsCheckout key (answered r) p h = elim (Bool-cases (p.waiting == 0)) [
  | inl idle ↦ rw idle h
  | inr waits ↦ rw waits (answer-IsCheckout key r p waits h)
]

opened-IsCheckout :
    (key : String) (form : FormState) (hydrated : Bool) (cart : Cart)
    → IsCart cart
    → IsCheckout key (opened form hydrated cart)
opened-IsCheckout key form hydrated cart h = record {
  cart = h;
  posted = tt;
  counted = refl;
  one = omega arith;
  placing = refl;
}

run_page-kept :
    (key : String) (es : List Event) (p : Page)
    → IsCheckout key p
    → IsCheckout key (run_page key es p)
unfolding run_page
run_page-kept key [] p h = h
run_page-kept key (e ∷ es) p h = run_page-kept key es (step key e p) (step-IsCheckout key e p h)

-- Nothing is posted or gone to any more.
abbrev pub IsOver : Page → Page → Type 0
IsOver p q = (q.state.posted ≡ p.state.posted) × (q.state.pushed ≡ p.state.pushed)

placed_idle :
    (key : String) (p : Page)
    → IsCheckout key p
    → is_some p.state.pushed ≡ true
    → (p.waiting ≡ 0) × (is_disabled p ≡ true)
unfolding is_disabled
placed_idle key p h placed =
    let idle : p.waiting ≡ 0 = ground (arith, placed, h.one) in
    let placing : p.state.placing ≡ true = h.placing ∙ ground (arith, placed, idle) in
    (idle, ground (arith, placing))

step-IsOver :
    (key : String) (e : Event) (p : Page)
    → IsCheckout key p
    → is_some p.state.pushed ≡ true
    → IsOver p (step key e p)
unfolding step
step-IsOver key (typed form) p h placed = (refl, refl)
step-IsOver key hydrates p h placed = (refl, refl)
step-IsOver key (changed call) p h placed = (refl, refl)
step-IsOver key pressed p h placed = rw (placed_idle key p h placed).1 (refl, refl)
step-IsOver key (answered r) p h placed = rw (placed_idle key p h placed).0 (refl, refl)

run_page-IsOver :
    (key : String) (es : List Event) (p : Page)
    → IsCheckout key p
    → is_some p.state.pushed ≡ true
    → IsOver p (run_page key es p)
unfolding run_page
run_page-IsOver key [] p h placed = (refl, refl)
run_page-IsOver key (e ∷ es) p h placed =
    let (posted, pushed) = step-IsOver key e p h placed in
    let (posted', pushed') =
      run_page-IsOver key es (step key e p) (step-IsCheckout key e p h)
        (ap is_some pushed ∙ placed) in
    (posted' ∙ posted, pushed' ∙ pushed)

-- A checkout that opens with a well-formed cart, whatever is typed, changed, pressed and answered, in
-- any order. Every order that is posted is made of a form and a well-formed cart, has a line, and is
-- under the one key of the checkout. At most one of them is under way or placed, and all others have
-- failed; the button shows that one. Once one is placed, whatever comes then, no other is posted, and
-- the page that is gone to stays.
pub run_page-IsCheckout :
    (key : String) (form : FormState) (hydrated : Bool) (cart : Cart) (es fs : List Event)
    → IsCart cart
    → let p = run_page key es (opened form hydrated cart) in
      IsCheckout key p × ((p.state.pushed ≡ none) ⊎ IsOver p (run_page key fs p))
run_page-IsCheckout key form hydrated cart es fs h =
    let p = run_page key es (opened form hydrated cart) in
    let ok_now =
      run_page-kept key es (opened form hydrated cart)
        (opened-IsCheckout key form hydrated cart h) in
    (
      ok_now,
      elim (Option-cases p.state.pushed) [
        | inl none_yet ↦ inl none_yet
        | inr (to, placed) ↦ inr (run_page-IsOver key fs p ok_now (ap is_some placed))
      ],
    )
