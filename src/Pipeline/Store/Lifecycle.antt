-- ===== src/Pipeline/Store/Lifecycle.antt =====
-- What the tables say of one order after any calls, and when the transaction of a step applies.
use dinner_rush.Prelude.{
  ℕ, ◌≤◌, String, true, false, some, List, [], ◌∷◌, ◌++◌, map, ◌≡◌, refl, sym, ap, subst, ◌∙◌,
  str_eq, eq_iff, eq_refl, ◌≢◌, length, arith, Bool-cases, inl, inr,
}
use dinner_rush.Prelude.Maps.{lookup, includes, lookup-insert}
use dinner_rush.Pipeline.States.{State, placed, same, same→eq, is_terminal, left_of}
use dinner_rush.Pipeline.Models.{op_id_for}
use dinner_rush.Pipeline.Models.Laws.{op_id_for-injective}
use dinner_rush.Pipeline.Store.{
  OrderRow, Transition, Db, Commit, applied, empty, move, commit_transition, enqueue_next,
}
use dinner_rush.Pipeline.Store.Commands.{commanded}
use dinner_rush.Pipeline.Store.History.{
  IsHistory, trace_of, walk, walk-left, starts_above, op_of, OrderHistory, already, missing,
  elsewhere, done, move-MoveCase, moved_db,
}
use dinner_rush.Pipeline.Store.Calls.{Call, after, run_calls}
use dinner_rush.Pipeline.Store.Laws.{IsStore, run_calls-IsStore, empty-IsStore}

unclaimed :
    (id : String) (cur tgt : State) (ts : List Transition)
    → starts_above cur (trace_of id ts) ≡ true
    → includes (map op_of ts) (op_id_for id cur tgt) ≡ false
unclaimed id cur tgt [] h = refl
unclaimed id cur tgt (t ∷ ts) h = elim (Bool-cases (str_eq (op_of t) (op_id_for id cur tgt))) [
  | inr other ↦ rw other (unclaimed id cur tgt ts (ground (arith, h)))
  | inl same_op ↦
      let (o, f, u) =
        op_id_for-injective t.order_id id t.from_state cur t.to_state tgt
          ((eq_iff _ _).0 same_op) in
      ground (arith, h, (eq_iff t.order_id id).1 o, ap left_of f)
]

-- The transaction of a step from a state is applied exactly when the order is in that state.
pub moves_there :
    (id : String) (cur tgt : State) (cause : String) (n : ℕ) (db : Db) (row : OrderRow)
    → IsHistory db
    → lookup id db.orders ≡ some row
    → row.state ≡ cur
    → move id cur tgt cause n db ≡ applied (moved_db id cur tgt cause n row db)
moves_there id cur tgt cause n db row h found at_ =
    let path : walk placed (trace_of id db.transitions) ≡ some cur =
      subst (λ o. OrderHistory o (trace_of id db.transitions)) found (h.histories id)
      ∙ ap some at_ in
    let free : includes db.operations (op_id_for id cur tgt) ≡ false =
      ap (λ l. includes l (op_id_for id cur tgt)) h.claims
      ∙ unclaimed id cur tgt db.transitions
          (walk-left placed cur (trace_of id db.transitions) path).1 in
    elim (move-MoveCase id cur tgt cause n db) [
      | already there e ↦ absurd (cc)
      | missing none_there e ↦ absurd (cc)
      | elsewhere other there off e ↦
          absurd (ground (arith, found, there, off, at_, ap (λ s. same s s) at_))
      | done other there same_ e ↦
          let this : other ≡ row = ground (arith, found, there) in
          e ∙ ap (λ r. applied (moved_db id cur tgt cause n r db)) this
    ]

pub record IsLifecycle (id : String) (row : OrderRow) (db : Db) : Type 0 where
  pub follows : walk placed (trace_of id db.transitions) ≡ some row.state
  pub short : length (trace_of id db.transitions) ≤ 5
  pub driven : is_terminal row.state ≡ false → commanded id row.state db.outbox ≡ true

pub IsStore-IsLifecycle :
    (id : String) (row : OrderRow) (db : Db)
    → lookup id db.orders ≡ some row
    → IsStore db
    → IsLifecycle id row db
IsStore-IsLifecycle id row db found h =
    let path =
      subst (λ o. OrderHistory o (trace_of id db.transitions)) found (h.history.histories id) in
    record {
      follows = path;
      short = ground (arith, walk-left placed row.state (trace_of id db.transitions) path);
      driven = h.driven id row found;
    }

-- What a step does to the tables: it moves the order and notes the move, or it changes nothing.
pub record IsStep (id : String) (cur tgt : State) (n : ℕ) (row : OrderRow) (db : Db) : Type 0 where
  pub moves :
      row.state ≡ cur
      → lookup id (after db (commit_transition id cur tgt n db)).orders
        ≡ some (record row { state = tgt })
  pub noted :
      row.state ≡ cur
      → (after db (commit_transition id cur tgt n db)).transitions
        ≡ db.transitions
          ++ record {
            order_id = id;
            from_state = cur;
            to_state = tgt;
            cause = "advance";
            attempt = n;
          }
            ∷ []
  pub stale : row.state ≢ cur → after db (commit_transition id cur tgt n db) ≡ db

pub after-applied :
    (id : String) (tgt : State) (db next : Db) (c : Commit)
    → c ≡ applied next
    → ((after db (enqueue_next id tgt c)).orders ≡ next.orders)
      × ((after db (enqueue_next id tgt c)).transitions ≡ next.transitions)
after-applied id tgt db next c e = rw e (elim (Bool-cases (is_terminal tgt)) [
  | inl end ↦ rw end (refl, refl)
  | inr on ↦ rw on (refl, refl)
])

stale-move :
    (id : String) (cur tgt : State) (n : ℕ) (db : Db) (row : OrderRow)
    → lookup id db.orders ≡ some row
    → row.state ≢ cur
    → after db (enqueue_next id tgt (move id cur tgt "advance" n db)) ≡ db
stale-move id cur tgt n db row found off = elim (move-MoveCase id cur tgt "advance" n db) [
  | already there e ↦ rw e refl
  | missing none_there e ↦ rw e refl
  | elsewhere other there off_ e ↦ rw e refl
  | done other there same_ e ↦
      let this : other ≡ row = ground (arith, found, there) in
      absurd (off (ap (λ (r : OrderRow). r.state) (sym this) ∙ same→eq other.state cur same_))
]

-- In the tables after any calls, the transaction of a step from a state, made with whatever target and
-- however late: it moves the order and notes the transition where the order is in that state, and changes
-- nothing where it is not.
pub commit_transition-IsStep :
    (cs : List Call) (id : String) (cur tgt : State) (n : ℕ) (row : OrderRow)
    → lookup id (run_calls cs empty).orders ≡ some row
    → IsStep id cur tgt n row (run_calls cs empty)
unfolding commit_transition
commit_transition-IsStep cs id cur tgt n row found =
    let db = run_calls cs empty in
    let h = run_calls-IsStore cs empty empty-IsStore in
    let there = λ (at_ : row.state ≡ cur).
      after-applied id tgt db (moved_db id cur tgt "advance" n row db)
        (move id cur tgt "advance" n db)
        (moves_there id cur tgt "advance" n db row h.history found at_) in
    record {
      moves = λ at_.
          ap (λ o. lookup id o) (there at_).0
          ∙ lookup-insert id id (record row { state = tgt }) db.orders
          ∙ ground (arith, eq_refl id);
      noted = λ at_. (there at_).1;
      stale = λ off. stale-move id cur tgt n db row found off;
    }
