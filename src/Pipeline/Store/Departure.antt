-- ===== src/Pipeline/Store/Departure.antt =====
-- A transaction that is committed leaves its order in another state than the one it starts from.
use dinner_rush.Prelude.{
  ℕ, String, true, false, some, List, ◌≡◌, ◌≢◌, refl, sym, ap, subst, ◌∙◌, eq_refl, arith, ◌⊎◌, inl,
  inr,
}
use dinner_rush.Prelude.Maps.{lookup, lookup-insert, insert, includes}
use dinner_rush.Pipeline.Models.{op_id_for}
use dinner_rush.Pipeline.States.{State, code, same, can_transition}
use dinner_rush.Pipeline.Store.{OrderRow, Db, Commit, raced, move, commit_transition}
use dinner_rush.Pipeline.Store.History.{
  IsHistory, already, missing, elsewhere, done, move-MoveCase, moved_db,
}
use dinner_rush.Pipeline.Store.Calls.{after}
use dinner_rush.Pipeline.Store.Lifecycle.{moves_there, after-applied}

-- No row of the order is in a state.
pub Left : String → State → List (String × OrderRow) → Type 0
Left id s orders = (row : OrderRow) → lookup id orders ≡ some row → row.state ≢ s

can_transition-apart : (s t : State) → can_transition s t ≡ true → t ≢ s
can_transition-apart s t c e = ground (arith, c, e)

inserted-Left :
    (id : String) (s : State) (next : OrderRow) (orders : List (String × OrderRow))
    → next.state ≢ s
    → Left id s (insert id next orders)
unfolding Left
inserted-Left id s next orders apart row found e =
    let this : next ≡ row = ground (arith, found, lookup-insert id id next orders, eq_refl id) in
    apart (ap (λ (r : OrderRow). r.state) this ∙ e)

abbrev pub Departs : String → State → Db → Commit → Type 0
Departs id cur db c = (c ≡ raced) ⊎ Left id cur (after db c).orders

pub move-Departs :
    (id : String) (cur tgt : State) (cause : String) (n : ℕ) (db : Db)
    → can_transition cur tgt ≡ true
    → IsHistory db
    → Departs id cur db (move id cur tgt cause n db)
unfolding Left
move-Departs id cur tgt cause n db ok h = elim (move-MoveCase id cur tgt cause n db) [
  | missing none_there e ↦ inl e
  | elsewhere row found off e ↦ inl e
  | already there e ↦ inr (
      rw e (λ row found at_.
        let wrong = moves_there id cur tgt cause n db row h found at_ in absurd (cc)))
  | done row found same_ e ↦ inr (
      rw e (
        inserted-Left id cur (record row { state = tgt }) db.orders
          (can_transition-apart cur tgt ok)))
]

pub next-Departs :
    (id : String) (cur tgt : State) (n : ℕ) (db : Db)
    → can_transition cur tgt ≡ true
    → IsHistory db
    → Departs id cur db (commit_transition id cur tgt n db)
unfolding Left commit_transition
next-Departs id cur tgt n db ok h = elim (move-MoveCase id cur tgt "advance" n db) [
  | missing none_there e ↦ inl (rw e refl)
  | elsewhere row found off e ↦ inl (rw e refl)
  | already there e ↦ inr (
      rw e (λ row found at_.
        let wrong = moves_there id cur tgt "advance" n db row h found at_ in absurd (cc)))
  | done row found same_ e ↦ inr (
      subst (Left id cur)
        (sym (after-applied id tgt db (moved_db id cur tgt "advance" n row db) _ e).0)
        (inserted-Left id cur (record row { state = tgt }) db.orders
          (can_transition-apart cur tgt ok)))
]

-- A claimed step has been made, so the order has left its first state.
pub claimed-Left :
    (id : String) (cur tgt : State) (db : Db)
    → IsHistory db
    → includes db.operations (op_id_for id cur tgt) ≡ true
    → Left id cur db.orders
unfolding Left move
claimed-Left id cur tgt db h c row found at_ =
    let made = moves_there id cur tgt "advance" 1 db row h found at_ in ground (arith, made, c)

pub other-Left :
    (id : String) (s : State) (row : OrderRow) (orders : List (String × OrderRow))
    → lookup id orders ≡ some row
    → same row.state s ≡ false
    → Left id s orders
unfolding Left
other-Left id s row orders there off found_row found e =
    let this : row ≡ found_row = ground (arith, there, found) in
    let at_ : row.state ≡ s = ap (λ (r : OrderRow). r.state) this ∙ e in
    ground (arith, off, ap code at_)
