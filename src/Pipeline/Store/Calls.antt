-- ===== src/Pipeline/Store/Calls.antt =====
-- The transactions of the deliveries as calls, each with the state that its delivery has read before.
use dinner_rush.Prelude.{
  ℕ, String, Bool, true, false, Option, none, some, List, [], ◌∷◌, ◌++◌, ◌≡◌, refl, ap, ◌∙◌,
  if◌then◌else◌, ◌||◌,
}
use dinner_rush.Pipeline.States.{
  State, placed, confirmed, preparing, ready, out_for_delivery, delivered, cancelled, failed, same,
  is_terminal, next_happy_state,
}
use dinner_rush.Pipeline.Models.{PlacedData}
use dinner_rush.Pipeline.Store.{
  Db, Commit, applied, duplicate, raced, commit_transition, cancel, fail_order, insert_placed,
}

-- A transaction that a delivery makes after it has read the state `current`, which may be old by then.
pub data Call : Type 0 where
  placing : String → PlacedData → Call
  advancing : String → State → ℕ → Call
  cancelling : String → State → ℕ → Call
  failing : String → State → String → ℕ → Call

abbrev pub after : Db → Commit → Db
after db (applied next) = next
after db duplicate = db
after db raced = db

abbrev pub is_early : State → Bool
is_early current = same current placed || same current confirmed || same current preparing

unfoldable pub run_call : Call → Db → Db
run_call (placing id d) db = insert_placed id d db
run_call (advancing id current n) db = elim (next_happy_state current) [
  | none ↦ db
  | some target ↦ after db (commit_transition id current target n db)
]
run_call (cancelling id current n) db =
    if is_early current then after db (cancel id current n db) else db
run_call (failing id current reason n) db =
    if is_terminal current then db else after db (fail_order id current reason n db)

unfoldable pub run_calls : List Call → Db → Db
run_calls [] db = db
run_calls (c ∷ cs) db = run_calls cs (run_call c db)

pub run_calls-append :
    (cs ds : List Call) (db : Db) → run_calls (cs ++ ds) db ≡ run_calls ds (run_calls cs db)
unfolding run_calls
run_calls-append [] ds db = refl
run_calls-append (c ∷ cs) ds db = run_calls-append cs ds (run_call c db)

follow : String → State → ℕ → Db → Option State → Db
follow id cur n db none = db
follow id cur n db (some tgt) = after db (commit_transition id cur tgt n db)

run_call-follow :
    (id : String) (cur : State) (n : ℕ) (db : Db)
    → run_call (advancing id cur n) db ≡ follow id cur n db (next_happy_state cur)
unfolding run_call follow
run_call-follow id placed n db = refl
run_call-follow id confirmed n db = refl
run_call-follow id preparing n db = refl
run_call-follow id ready n db = refl
run_call-follow id out_for_delivery n db = refl
run_call-follow id delivered n db = refl
run_call-follow id cancelled n db = refl
run_call-follow id failed n db = refl

pub runs-advancing :
    (id : String) (cur tgt : State) (n : ℕ) (db : Db)
    → next_happy_state cur ≡ some tgt
    → run_calls (advancing id cur n ∷ []) db ≡ after db (commit_transition id cur tgt n db)
unfolding run_calls follow
runs-advancing id cur tgt n db e = run_call-follow id cur n db ∙ ap (follow id cur n db) e

pub runs-cancelling :
    (id : String) (cur : State) (n : ℕ) (db : Db)
    → is_early cur ≡ true
    → run_calls (cancelling id cur n ∷ []) db ≡ after db (cancel id cur n db)
unfolding run_calls run_call
runs-cancelling id cur n db e = rw e refl

pub runs-failing :
    (id : String) (cur : State) (cause : String) (n : ℕ) (db : Db)
    → is_terminal cur ≡ false
    → run_calls (failing id cur cause n ∷ []) db ≡ after db (fail_order id cur cause n db)
unfolding run_calls run_call
runs-failing id cur cause n db e = rw e refl

pub run_calls-nil : (db : Db) → db ≡ run_calls [] db
unfolding run_calls
run_calls-nil db = refl
