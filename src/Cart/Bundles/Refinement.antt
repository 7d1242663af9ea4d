-- ===== src/Cart/Bundles/Refinement.antt =====
-- The updater of `addBundle` computes the pure function on the items that its result reads as.
use dinner_rush.Prelude.{
  ℕ, zero, suc, ◌+◌, ◌<◌, ◌≤◌, String, true, false, not, Option, none, some, List, [], ◌∷◌, ◌++◌,
  ◌≡◌, refl, if◌then◌else◌, length, get_elem?, all, ◌==◌, arith, length-append, Option-cases,
  Bool-cases, subst, inl, inr, ◌∙◌, sym, ap,
}
use dinner_rush.Types.{CartItem}
use dinner_rush.Cart.Items.{is_dish, item, add_one, add_all}
use dinner_rush.Cart.Bundles.{Store, read, find_ref, bump, bundle_round, update_bundle}

-- Every reference is to an object, and no two are to the same.
abbrev pub AreRefs : Store → List ℕ → Type 0
AreRefs h [] = Unit
AreRefs h (r ∷ rs) = (r < length h) × (all (λ x. not (x == r)) rs ≡ true) × AreRefs h rs

abbrev pub raised : Option CartItem → Option CartItem
raised none = none
raised (some i) = some (record i { qty = i.qty + 1 })

pub get_elem?-bump :
    (h : Store) (r x : ℕ)
    → get_elem? (bump h r) x ≡ (if x == r then raised (get_elem? h x) else get_elem? h x)
unfolding bump
get_elem?-bump [] r x = ground arith
get_elem?-bump (i ∷ h) zero zero = refl
get_elem?-bump (i ∷ h) zero (suc x) = ground arith
get_elem?-bump (i ∷ h) (suc r) zero = ground arith
get_elem?-bump (i ∷ h) (suc r) (suc x) = ground (arith, get_elem?-bump h r x)

pub length-bump : (h : Store) (r : ℕ) → length (bump h r) ≡ length h
unfolding bump
length-bump [] r = refl
length-bump (i ∷ h) zero = refl
length-bump (i ∷ h) (suc r) = ap suc (length-bump h r)

get_elem?-some : (h : Store) (r : ℕ) → r < length h → (i : CartItem) × (get_elem? h r ≡ some i)
get_elem?-some [] r l = absurd (omega arith)
get_elem?-some (i ∷ h) zero l = (i, refl)
get_elem?-some (i ∷ h) (suc r) l = get_elem?-some h r (omega arith)

pub get_elem?-append :
    (h : Store) (i : CartItem) (r : ℕ) → r < length h → get_elem? (h ++ i ∷ []) r ≡ get_elem? h r
get_elem?-append [] i r l = absurd (omega arith)
get_elem?-append (x ∷ h) i zero l = refl
get_elem?-append (x ∷ h) i (suc r) l = get_elem?-append h i r (omega arith)

get_elem?-pushed : (h : Store) (i : CartItem) → get_elem? (h ++ i ∷ []) (length h) ≡ some i
get_elem?-pushed [] i = refl
get_elem?-pushed (x ∷ h) i = get_elem?-pushed h i

-- A write to an object outside the list, and a new object, are not seen through it.
read-bump_other :
    (h : Store) (r : ℕ) (rs : List ℕ)
    → all (λ x. not (x == r)) rs ≡ true
    → read (bump h r) rs ≡ read h rs
read-bump_other h r [] n = refl
read-bump_other h r (x ∷ rs) n = ground (arith, get_elem?-bump h r x, read-bump_other h r rs)

pub read-append :
    (h : Store) (i : CartItem) (rs : List ℕ) → AreRefs h rs → read (h ++ i ∷ []) rs ≡ read h rs
read-append h i [] v = refl
read-append h i (r ∷ rs) (l, _, v) = ground (arith, get_elem?-append h i r l, read-append h i rs v)

find_ref-ne :
    (id : String) (h : Store) (x r : ℕ) (rs : List ℕ)
    → all (λ y. not (y == x)) rs ≡ true
    → find_ref id h rs ≡ some r
    → (r == x) ≡ false
unfolding find_ref
find_ref-ne id h x r [] n e = cc
find_ref-ne id h x r (y ∷ rs) n e = ground (arith, find_ref-ne id h x r rs)

read-cons :
    (h : Store) (x : ℕ) (rs : List ℕ) (i : CartItem)
    → get_elem? h x ≡ some i
    → read h (x ∷ rs) ≡ i ∷ read h rs
read-cons h x rs i at = rw (at, read)

read-bump_head :
    (id : String) (h : Store) (r : ℕ) (rs : List ℕ) (i : CartItem)
    → get_elem? h r ≡ some i
    → is_dish id i ≡ true
    → all (λ x. not (x == r)) rs ≡ true
    → read (bump h r) (r ∷ rs) ≡ add_one id (read h (r ∷ rs))
unfolding add_one
read-bump_head id h r rs i at same n =
    let at' : get_elem? (bump h r) r ≡ some (record i { qty = i.qty + 1 }) =
      ground (arith, get_elem?-bump h r r) in
    rw (read-cons h r rs i at, read-cons (bump h r) r rs _ at', read-bump_other h r rs n) (rw same)

read-bump_skip :
    (id : String) (h : Store) (r x : ℕ) (rs : List ℕ) (i : CartItem)
    → get_elem? h x ≡ some i
    → is_dish id i ≡ false
    → (r == x) ≡ false
    → read (bump h r) rs ≡ add_one id (read h rs)
    → read (bump h r) (x ∷ rs) ≡ add_one id (read h (x ∷ rs))
unfolding add_one
read-bump_skip id h r x rs i at other ne ih =
    let at' : get_elem? (bump h r) x ≡ some i = ground (arith, get_elem?-bump h r x) in
    rw (read-cons h x rs i at, read-cons (bump h r) x rs i at') (rw (other, ih))

-- A write to the object found first is `add_one` on what is read.
pub read-bump_found :
    (id : String) (h : Store) (r : ℕ) (rs : List ℕ)
    → AreRefs h rs
    → find_ref id h rs ≡ some r
    → read (bump h r) rs ≡ add_one id (read h rs)
unfolding find_ref
read-bump_found id h r [] v e = cc
read-bump_found id h r (x ∷ rs) (l, n, v) e =
    let (i, at) = get_elem?-some h x l in
    elim (Bool-cases (is_dish id i)) [
      | inl same ↦
          let p : x ≡ r = ground arith in
          subst (λ y. read (bump h y) (x ∷ rs) ≡ add_one id (read h (x ∷ rs))) p
            (read-bump_head id h x rs i at same n)
      | inr other ↦
          let later : find_ref id h rs ≡ some r = ground arith in
          read-bump_skip id h r x rs i at other (find_ref-ne id h x r rs n later)
            (read-bump_found id h r rs v later)
    ]

-- A dish that is not found is pushed.
pub add_one_absent :
    (id : String) (h : Store) (rs : List ℕ)
    → AreRefs h rs
    → find_ref id h rs ≡ none
    → add_one id (read h rs) ≡ read h rs ++ item id 1 ∷ []
unfolding find_ref add_one
add_one_absent id h [] v e = refl
add_one_absent id h (x ∷ rs) (l, n, v) e =
    let (i, at) = get_elem?-some h x l in
    let other : is_dish id i ≡ false = ground arith in
    let later : find_ref id h rs ≡ none = ground arith in
    rw (read-cons h x rs i at) (rw (other, add_one_absent id h rs v later))

read-append_refs : (h : Store) (rs ss : List ℕ) → read h (rs ++ ss) ≡ read h rs ++ read h ss
read-append_refs h [] ss = refl
read-append_refs h (r ∷ rs) ss = ground (arith, read-append_refs h rs ss)

all_below :
    (n : ℕ) (h : Store) (rs : List ℕ)
    → AreRefs h rs
    → length h ≤ n
    → all (λ x. not (x == n)) rs ≡ true
all_below n h [] v l = refl
all_below n h (r ∷ rs) v l = ground (arith, all_below n h rs)

all-push :
    (r n : ℕ) (rs : List ℕ)
    → all (λ x. not (x == r)) rs ≡ true
    → r < n
    → all (λ x. not (x == r)) (rs ++ n ∷ []) ≡ true
all-push r n [] h l = ground arith
all-push r n (x ∷ rs) h l = ground (arith, all-push r n rs)

AreRefs-push :
    (h : Store) (i : CartItem) (rs : List ℕ)
    → AreRefs h rs
    → AreRefs (h ++ i ∷ []) (rs ++ length h ∷ [])
AreRefs-push h i [] v = (omega (arith, length-append h (i ∷ [])), refl, tt)
AreRefs-push h i (r ∷ rs) (l, n, v) =
    (omega (arith, length-append h (i ∷ [])), all-push r (length h) rs n l, AreRefs-push h i rs v)

pub AreRefs-bump : (h : Store) (r : ℕ) (rs : List ℕ) → AreRefs h rs → AreRefs (bump h r) rs
AreRefs-bump h r [] v = tt
AreRefs-bump h r (x ∷ rs) (l, n, v) = (omega (arith, length-bump h r), n, AreRefs-bump h r rs v)

read-pushed :
    (id : String) (h : Store) (rs : List ℕ)
    → AreRefs h rs
    → read (h ++ item id 1 ∷ []) (rs ++ length h ∷ []) ≡ read h rs ++ item id 1 ∷ []
read-pushed id h rs v =
    rw (read-append_refs (h ++ item id 1 ∷ []) rs (length h ∷ []), read-append h (item id 1) rs v)
      (ap (◌++◌ (read h rs)) (
        read-cons (h ++ item id 1 ∷ []) (length h) [] (item id 1) (get_elem?-pushed h (item id 1))))

pub bundle_round_new :
    (id : String) (h : Store) (rs : List ℕ)
    → find_ref id h rs ≡ none
    → bundle_round id h rs ≡ (h ++ item id 1 ∷ [], rs ++ length h ∷ [])
unfolding bundle_round
bundle_round_new id h rs e = rw (e, bundle_round)

pub bundle_round_found :
    (id : String) (h : Store) (rs : List ℕ) (r : ℕ)
    → find_ref id h rs ≡ some r
    → bundle_round id h rs ≡ (bump h r, rs)
unfolding bundle_round
bundle_round_found id h rs r e = rw (e, bundle_round)

-- One round is `add_one`, and keeps the references sound.
pub read-bundle_round :
    (id : String) (h : Store) (rs : List ℕ)
    → AreRefs h rs
    → let (h', rs') = bundle_round id h rs in
      (read h' rs' ≡ add_one id (read h rs)) × AreRefs h' rs'
read-bundle_round id h rs v = elim (Option-cases (find_ref id h rs)) [
  | inl new ↦
      rw (bundle_round_new id h rs new) (
        read-pushed id h rs v ∙ sym (add_one_absent id h rs v new),
        AreRefs-push h (item id 1) rs v,
      )
  | inr (r, found) ↦
      rw (bundle_round_found id h rs r found)
        (read-bump_found id h r rs v found, AreRefs-bump h r rs v)
]

-- What the next state reads as is `add_all` on what the previous state read as before the update, if
-- the previous state's references are sound; and so are those of the next state.
pub read-update_bundle :
    (ids : List String) (h : Store) (prev : List ℕ)
    → AreRefs h prev
    → let (h', next) = update_bundle ids h prev in
      (read h' next ≡ add_all ids (read h prev)) × AreRefs h' next
unfolding update_bundle add_all
read-update_bundle [] h prev v = (refl, v)
read-update_bundle (id ∷ ids) h prev v =
    let (h', next) = bundle_round id h prev in
    let (first, v') = read-bundle_round id h prev v in
    let (rest, v'') = read-update_bundle ids h' next v' in (rest ∙ ap (add_all ids) first, v'')
