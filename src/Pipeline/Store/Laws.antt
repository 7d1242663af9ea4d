-- ===== src/Pipeline/Store/Laws.antt =====
-- What the transactions keep, in whatever order the deliveries make them and however old the state is that
-- a delivery has read: histories, claims, events, and a command for every order that goes on.
use dinner_rush.Prelude.{
  ℕ, String, true, false, none, some, List, [], ◌∷◌, ◌++◌, map, ◌≡◌, refl, sym, ap, subst, ◌∙◌,
  str_eq, eq_iff, arith, Bool-cases, Option-cases, inl, inr,
}
use dinner_rush.Prelude.Maps.{lookup, insert, lookup-insert}
use dinner_rush.Pipeline.States.{
  State, placed, confirmed, preparing, ready, out_for_delivery, delivered, cancelled, failed,
  can_transition, is_terminal,
}
use dinner_rush.Pipeline.Models.{PlacedData}
use dinner_rush.Pipeline.Store.{
  OrderRow, Db, Commit, placed_row, Outgoing, work, applied, duplicate, raced, empty, move,
  commit_transition, cancel, fail_order, insert_placed, enqueue, advance_command,
}
use dinner_rush.Pipeline.Store.Commands.{
  commanded, commanded-push, commanded-next, event_of, told, told_event, told_command, told-nil,
}
use dinner_rush.Pipeline.Store.Calls.{
  Call, placing, advancing, cancelling, failing, after, is_early, run_call, run_calls,
}
use dinner_rush.Pipeline.Store.History.{
  IsHistory, OrderHistory, walk-nil, trace_of, walk, already, missing, elsewhere, done,
  move-MoveCase, move-IsHistory, moved_db, Leaves, map-push,
}

pub record IsStore (db : Db) : Type 0 where
  pub history : IsHistory db
  pub events_told : told db.outbox ≡ map event_of db.transitions
  pub driven :
      (id : String) (row : OrderRow)
      → lookup id db.orders ≡ some row
      → is_terminal row.state ≡ false
      → commanded id row.state db.outbox ≡ true

-- Where the driven orders are, after one order has moved and messages were added.
driven-moved :
    (db : Db) (id : String) (next : OrderRow) (outbox : List Outgoing)
    → IsStore db
    → ((j : String) (s : State) → commanded j s db.outbox ≡ true → commanded j s outbox ≡ true)
    → (is_terminal next.state ≡ false → commanded id next.state outbox ≡ true)
    → (j : String) (r : OrderRow) → lookup j (insert id next db.orders) ≡ some r
    → is_terminal r.state ≡ false
    → commanded j r.state outbox ≡ true
driven-moved db id next outbox h grows own j r found live = elim (Bool-cases (str_eq id j)) [
  | inl e ↦
      let this : next ≡ r = ground (arith, found, lookup-insert id j next db.orders, e) in
      subst (λ (x : OrderRow). is_terminal x.state ≡ false → commanded j x.state outbox ≡ true) this
        (subst (λ k. is_terminal next.state ≡ false → commanded k next.state outbox ≡ true)
          ((eq_iff id j).0 e) own)
        live
  | inr e ↦
      grows j r.state (h.driven j r (ground (arith, lookup-insert id j next db.orders, e)) live)
]

grows :
    (o : Outgoing) (outbox : List Outgoing) (j : String) (s : State)
    → commanded j s outbox ≡ true
    → commanded j s (outbox ++ o ∷ []) ≡ true
grows o outbox j s h = ground (arith, h, commanded-push j s outbox o)

told-moved :
    (id : String) (cur tgt : State) (cause : String) (n : ℕ) (row : OrderRow) (db : Db)
    → IsStore db
    → told (moved_db id cur tgt cause n row db).outbox
      ≡ map event_of (moved_db id cur tgt cause n row db).transitions
told-moved id cur tgt cause n row db h =
    told_event db.outbox id cur tgt cause n
    ∙ ap (λ l. l ++ (id, cur, tgt, cause, n) ∷ []) h.events_told
    ∙ sym (map-push event_of db.transitions _)

-- A move that is followed by a command, or by none where the order ends there.
module _ (id : String) (cur tgt : State) (cause : String) (n : ℕ) (db : Db) (h : IsStore db) where
  moved-IsStore :
      (row : OrderRow)
      → IsHistory (moved_db id cur tgt cause n row db)
      → is_terminal tgt ≡ true
      → IsStore (moved_db id cur tgt cause n row db)
  moved-IsStore row hist end = record {
    history = hist;
    events_told = told-moved id cur tgt cause n row db h;
    driven =
        driven-moved db id (record row { state = tgt }) (moved_db id cur tgt cause n row db).outbox
          h (λ j s. grows _ db.outbox j s) (λ live. absurd (cc));
  }

  enqueued-IsStore :
      (row : OrderRow)
      → IsHistory (moved_db id cur tgt cause n row db)
      → IsStore (enqueue work (advance_command id tgt) (moved_db id cur tgt cause n row db))
  enqueued-IsStore row hist = record {
    history = record { histories = hist.histories; claims = hist.claims };
    events_told =
        told_command (moved_db id cur tgt cause n row db).outbox id tgt
        ∙ told-moved id cur tgt cause n row db h;
    driven =
        driven-moved db id (record row { state = tgt })
          (enqueue work (advance_command id tgt) (moved_db id cur tgt cause n row db)).outbox h
          (λ j s c.
            grows _ (moved_db id cur tgt cause n row db).outbox j s (grows _ db.outbox j s c))
          (λ live. commanded-next id tgt (moved_db id cur tgt cause n row db).outbox);
  }

follows-IsStore :
    (id : String) (cur tgt : State) (n : ℕ) (db : Db)
    → can_transition cur tgt ≡ true
    → IsStore db
    → Leaves IsStore (commit_transition id cur tgt n db)
unfolding commit_transition
follows-IsStore id cur tgt n db ok h =
    let hist = move-IsHistory id cur tgt "advance" n db ok h.history in
    elim (move-MoveCase id cur tgt "advance" n db) [
      | already there e ↦ rw e tt
      | missing none_there e ↦ rw e tt
      | elsewhere row found off e ↦ rw e tt
      | done row found at_ e ↦
          let kept = subst (Leaves IsHistory) e hist in
          rw e (elim (Bool-cases (is_terminal tgt)) [
            | inl end ↦ rw end (moved-IsStore id cur tgt "advance" n db h row kept end)
            | inr on ↦ rw on (enqueued-IsStore id cur tgt "advance" n db h row kept)
          ])
    ]

ends-IsStore :
    (id : String) (cur tgt : State) (cause : String) (n : ℕ) (db : Db)
    → can_transition cur tgt ≡ true
    → is_terminal tgt ≡ true
    → IsStore db
    → Leaves IsStore (move id cur tgt cause n db)
ends-IsStore id cur tgt cause n db ok end h =
    let hist = move-IsHistory id cur tgt cause n db ok h.history in
    elim (move-MoveCase id cur tgt cause n db) [
      | already there e ↦ rw e tt
      | missing none_there e ↦ rw e tt
      | elsewhere row found off e ↦ rw e tt
      | done row found at_ e ↦
          rw e (moved-IsStore id cur tgt cause n db h row (subst (Leaves IsHistory) e hist) end)
    ]

placed-histories :
    (id : String) (d : PlacedData) (db : Db)
    → lookup id db.orders ≡ none
    → IsHistory db
    → (j : String)
    → OrderHistory (lookup j (insert id (placed_row d) db.orders)) (trace_of j db.transitions)
placed-histories id d db new h j =
    rw (lookup-insert id j (placed_row d) db.orders) (elim (Bool-cases (str_eq id j)) [
      | inl e ↦ rw e (
          ap (walk placed) (
            subst (λ o. OrderHistory o (trace_of j db.transitions))
              (ap (λ k. lookup k db.orders) (sym ((eq_iff id j).0 e)) ∙ new) (h.histories j))
          ∙ walk-nil placed)
      | inr e ↦ rw e (h.histories j)
    ])

pub placed-IsStore :
    (id : String) (d : PlacedData) (db : Db) → IsStore db → IsStore (insert_placed id d db)
unfolding insert_placed
placed-IsStore id d db h = elim (Option-cases (lookup id db.orders)) [
  | inr (row, found) ↦ rw (found, insert_placed) h
  | inl new ↦
      rw (new, insert_placed)
        (record {
          history = record {
            histories = placed-histories id d db new h.history;
            claims = h.history.claims;
          };
          events_told = told_command db.outbox id placed ∙ h.events_told;
          driven =
              driven-moved db id (placed_row d) (enqueue work (advance_command id placed) db).outbox
                h (λ j s. grows _ db.outbox j s) (λ live. commanded-next id placed db.outbox);
        })
]

after-IsStore : (db : Db) (c : Commit) → IsStore db → Leaves IsStore c → IsStore (after db c)
after-IsStore db (applied next) h k = k
after-IsStore db duplicate h k = h
after-IsStore db raced h k = h

pub run_call-IsStore : (c : Call) (db : Db) → IsStore db → IsStore (run_call c db)
unfolding run_call cancel fail_order
run_call-IsStore (placing id d) db h = placed-IsStore id d db h
run_call-IsStore (advancing id placed n) db h =
    after-IsStore db _ h (follows-IsStore id placed confirmed n db refl h)
run_call-IsStore (advancing id confirmed n) db h =
    after-IsStore db _ h (follows-IsStore id confirmed preparing n db refl h)
run_call-IsStore (advancing id preparing n) db h =
    after-IsStore db _ h (follows-IsStore id preparing ready n db refl h)
run_call-IsStore (advancing id ready n) db h =
    after-IsStore db _ h (follows-IsStore id ready out_for_delivery n db refl h)
run_call-IsStore (advancing id out_for_delivery n) db h =
    after-IsStore db _ h (follows-IsStore id out_for_delivery delivered n db refl h)
run_call-IsStore (advancing id delivered n) db h = h
run_call-IsStore (advancing id cancelled n) db h = h
run_call-IsStore (advancing id failed n) db h = h
run_call-IsStore (cancelling id current n) db h = elim (Bool-cases (is_early current)) [
  | inl early ↦ rw early (
      after-IsStore db (cancel id current n db) h (
        ends-IsStore id current cancelled "customer_cancelled" n db (ground (arith, early)) refl h))
  | inr late ↦ rw late h
]
run_call-IsStore (failing id current reason n) db h = elim (Bool-cases (is_terminal current)) [
  | inl end ↦ rw end h
  | inr on ↦ rw on (
      after-IsStore db (fail_order id current reason n db) h
        (ends-IsStore id current failed reason n db (ground (arith, on)) refl h))
]

pub run_calls-IsStore : (cs : List Call) (db : Db) → IsStore db → IsStore (run_calls cs db)
unfolding run_calls
run_calls-IsStore [] db h = h
run_calls-IsStore (c ∷ cs) db h = run_calls-IsStore cs (run_call c db) (run_call-IsStore c db h)

pub empty-IsStore : IsStore empty
empty-IsStore = record {
  history = record { histories = λ id. refl; claims = refl };
  events_told = told-nil;
  driven = λ id row found live. absurd (cc);
}
