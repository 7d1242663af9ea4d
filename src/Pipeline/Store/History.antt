-- ===== src/Pipeline/Store/History.antt =====
-- The history of an order in the table of transitions, and what every transaction keeps of it.
use mathlib.Core.List.{append-nil}
use dinner_rush.Prelude.{
  ℕ, ◌≤◌, String, Bool, true, false, Option, none, some, List, [], ◌∷◌, ◌++◌, map, ◌≡◌, refl, sym,
  ap, subst, ◌∙◌, str_eq, eq_iff, if◌then◌else◌, filter, filter-append, length, all, ltb, ◌+◌,
  arith, ◌&&◌, Bool-cases, Option-cases, inl, inr,
}
use dinner_rush.Prelude.Maps.{lookup, insert, lookup-insert, includes}
use dinner_rush.Pipeline.States.{
  State, placed, same, can_transition, left_of, left_of-can_transition,
}
use dinner_rush.Pipeline.Models.{op_id_for, make_event, moved}
use dinner_rush.Pipeline.Store.{
  OrderRow, Transition, Db, Commit, applied, duplicate, raced, move, update_state, enqueue, events,
  record_transition,
}

-- The transitions of one order, in the order of the table.
abbrev pub trace_of : String → List Transition → List Transition
trace_of id ts = filter (λ t. str_eq t.order_id id) ts

-- Where a list of transitions leads from a state: `none` if one starts elsewhere or is not allowed.
pub walk : State → List Transition → Option State
walk s [] = some s
walk s (t ∷ ts) =
    let rest = walk t.to_state ts in
    if same s t.from_state && can_transition t.from_state t.to_state then rest else none

pub walk-nil : (s : State) → walk s [] ≡ some s
unfolding walk
walk-nil s = refl

abbrev pub OrderHistory : Option OrderRow → List Transition → Type 0
OrderHistory none ts = ts ≡ []
OrderHistory (some row) ts = walk placed ts ≡ some row.state

abbrev pub op_of : Transition → String
op_of t = op_id_for t.order_id t.from_state t.to_state

pub record IsHistory (db : Db) : Type 0 where
  pub histories : (id : String) → OrderHistory (lookup id db.orders) (trace_of id db.transitions)
  pub claims : db.operations ≡ map op_of db.transitions

walk-append :
    (s u : State) (ts : List Transition) (t : Transition)
    → walk s ts ≡ some u
    → same u t.from_state ≡ true
    → can_transition t.from_state t.to_state ≡ true
    → walk s (ts ++ t ∷ []) ≡ some t.to_state
unfolding walk
walk-append s u [] t h e c = ground arith
walk-append s u (x ∷ ts) t h e c = ground (arith, walk-append x.to_state u ts t)

abbrev pub starts_above : State → List Transition → Bool
starts_above u ts = all (λ (t : Transition). ltb (left_of u) (left_of t.from_state)) ts

-- A history goes down, so it never comes back to a state that it has left.
pub walk-left :
    (s u : State) (ts : List Transition)
    → walk s ts ≡ some u
    → (left_of u + length ts ≤ left_of s) × (starts_above u ts ≡ true)
unfolding walk
walk-left s u [] h = ground arith
walk-left s u (t ∷ ts) h =
    ground (arith, walk-left t.to_state u ts, left_of-can_transition t.from_state t.to_state)

pub map-push :
    {A B : Type 0} (f : A → B) (xs : List A) (x : A) → map f (xs ++ x ∷ []) ≡ map f xs ++ f x ∷ []
map-push f [] x = refl
map-push f (y ∷ xs) x = ap (λ l. f y ∷ l) (map-push f xs x)

-- What a transaction that moves an order leaves, where it is applied.
abbrev pub Leaves {κ} : (Db → Type κ) → Commit → Type κ
Leaves P (applied db) = P db
Leaves P duplicate = Unit
Leaves P raced = Unit

trace_of-push :
    (j : String) (ts : List Transition) (t : Transition)
    → trace_of j (ts ++ t ∷ [])
      ≡ (if str_eq t.order_id j then trace_of j ts ++ t ∷ [] else trace_of j ts)
trace_of-push j ts t = elim (Bool-cases (str_eq t.order_id j)) [
  | inl e ↦ rw e (filter-append (λ x. str_eq x.order_id j) ts (t ∷ []) ∙ rw e refl)
  | inr e ↦ rw e (filter-append (λ x. str_eq x.order_id j) ts (t ∷ []) ∙ rw e (append-nil _))
]

histories-push :
    (orders : List (String × OrderRow)) (ts : List Transition) (row next : OrderRow)
    (t : Transition)
    → lookup t.order_id orders ≡ some row
    → same row.state t.from_state ≡ true
    → can_transition t.from_state t.to_state ≡ true
    → next.state ≡ t.to_state
    → ((id : String) → OrderHistory (lookup id orders) (trace_of id ts))
    → (id : String)
    → OrderHistory (lookup id (insert t.order_id next orders)) (trace_of id (ts ++ t ∷ []))
histories-push orders ts row next t found at_ ok to h id =
    rw (lookup-insert t.order_id id next orders) (
      rw (trace_of-push id ts t) (elim (Bool-cases (str_eq t.order_id id)) [
        | inl e ↦ rw e (
            rw to (
              walk-append placed row.state (trace_of id ts) t
                (subst (λ o. OrderHistory o (trace_of id ts))
                  (sym (ap (λ k. lookup k orders) ((eq_iff t.order_id id).0 e)) ∙ found) (h id))
                at_ ok))
        | inr e ↦ rw e (h id)
      ]))

-- The tables after a move.
abbrev pub moved_db : String → State → State → String → ℕ → OrderRow → Db → Db
moved_db id cur tgt cause n row db = enqueue events (make_event id (moved cur tgt cause n)) (
    record_transition id cur tgt cause n (record db {
      operations = db.operations ++ op_id_for id cur tgt ∷ [];
      orders = insert id (record row { state = tgt }) db.orders;
    }))

pub data MoveCase (id : String) (cur tgt : State) (cause : String) (n : ℕ) (db : Db) : Type 0 where
  already :
      includes db.operations (op_id_for id cur tgt) ≡ true
      → move id cur tgt cause n db ≡ duplicate
      → MoveCase id cur tgt cause n db
  missing :
      lookup id db.orders ≡ none
      → move id cur tgt cause n db ≡ raced
      → MoveCase id cur tgt cause n db
  elsewhere :
      (row : OrderRow)
      → lookup id db.orders ≡ some row
      → same row.state cur ≡ false
      → move id cur tgt cause n db ≡ raced
      → MoveCase id cur tgt cause n db
  done :
      (row : OrderRow)
      → lookup id db.orders ≡ some row
      → same row.state cur ≡ true
      → move id cur tgt cause n db ≡ applied (moved_db id cur tgt cause n row db)
      → MoveCase id cur tgt cause n db

pub move-MoveCase :
    (id : String) (cur tgt : State) (cause : String) (n : ℕ) (db : Db)
    → MoveCase id cur tgt cause n db
unfolding move update_state
move-MoveCase id cur tgt cause n db =
    elim (Bool-cases (includes db.operations (op_id_for id cur tgt))) [
      | inl there ↦ already there (ground arith)
      | inr new ↦ elim (Option-cases (lookup id db.orders)) [
        | inl e ↦ missing e (ground arith)
        | inr (row, found) ↦ elim (Bool-cases (same row.state cur)) [
          | inl at_ ↦ done row found at_ (ground arith)
          | inr off ↦ elsewhere row found off (ground arith)
        ]
      ]
    ]

-- A move along an allowed transition keeps the history of every order.
pub move-IsHistory :
    (id : String) (cur tgt : State) (cause : String) (n : ℕ) (db : Db)
    → can_transition cur tgt ≡ true
    → IsHistory db
    → Leaves IsHistory (move id cur tgt cause n db)
move-IsHistory id cur tgt cause n db ok h = elim (move-MoveCase id cur tgt cause n db) [
  | already there e ↦ rw e tt
  | missing none_there e ↦ rw e tt
  | elsewhere row found off e ↦ rw e tt
  | done row found at_ e ↦ rw e (record {
    histories =
        histories-push db.orders db.transitions row (record row { state = tgt })
          (record { order_id = id; from_state = cur; to_state = tgt; cause = cause; attempt = n })
          found at_ ok refl h.histories;
    claims =
        ap (λ l. l ++ op_id_for id cur tgt ∷ []) h.claims
        ∙ sym (
            map-push op_of db.transitions (record {
              order_id = id;
              from_state = cur;
              to_state = tgt;
              cause = cause;
              attempt = n;
            }));
  })
]
