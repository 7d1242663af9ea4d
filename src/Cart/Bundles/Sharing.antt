-- ===== src/Cart/Bundles/Sharing.antt =====
-- What the updater of `addBundle` does to the previous state, whose objects it shares.
use dinner_rush.Prelude.{
  ℕ, ◌+◌, ◌*◌, String, true, false, none, some, List, [], ◌∷◌, ◌++◌, ◌≡◌, refl, str_eq, eq_iff,
  eq_refl, if◌then◌else◌, length, get_elem?, length-append, arith, Option-cases, Bool-cases, inl,
  inr, is_some, ◌∙◌, sym, subst,
}
use mathlib.Core.List.{append_assoc, append-nil}
use dinner_rush.Types.{CartItem}
use dinner_rush.Cart.Items.{is_dish, item, qty_in}
use dinner_rush.Cart.Items.Laws.{times_in, qty_in-add_one, qty_in-add_all}
use dinner_rush.Cart.Bundles.{Store, read, find_ref, bump, bundle_round, update_bundle}
use dinner_rush.Cart.Bundles.Refinement.{
  AreRefs, get_elem?-bump, get_elem?-append, read-append, read-bump_found, AreRefs-bump,
  bundle_round_new, bundle_round_found, read-update_bundle,
}

-- `prev` is the list that the round began with or an earlier part of it.
find_ref-append :
    (id : String) (h : Store) (prev extra : List ℕ)
    → find_ref id h (prev ++ extra)
      ≡ elim (find_ref id h prev) [ none ↦ find_ref id h extra | some r ↦ some r ]
unfolding find_ref
find_ref-append id h [] extra = refl
find_ref-append id h (r ∷ prev) extra = ground (arith, find_ref-append id h prev extra)

find_ref-some :
    (k : String) (h : Store) (rs : List ℕ) (r : ℕ)
    → find_ref k h rs ≡ some r
    → (i : CartItem) × (get_elem? h r ≡ some i) × (is_dish k i ≡ true)
unfolding find_ref
find_ref-some k h [] r e = absurd (cc)
find_ref-some k h (x ∷ rs) r e = elim (Option-cases (get_elem? h x)) [
  | inl gone ↦ find_ref-some k h rs r (ground arith)
  | inr (i, at) ↦ elim (Bool-cases (is_dish k i)) [
    | inl same ↦ let p : x ≡ r = ground arith in (i, subst (λ y. get_elem? h y ≡ some i) p at, same)
    | inr other ↦ find_ref-some k h rs r (ground arith)
  ]
]

find_ref-bump :
    (id : String) (h : Store) (r : ℕ) (rs : List ℕ) → find_ref id (bump h r) rs ≡ find_ref id h rs
unfolding find_ref
find_ref-bump id h r [] = refl
find_ref-bump id h r (x ∷ rs) = ground (arith, get_elem?-bump h r x, find_ref-bump id h r rs)

qty_in-bump_other :
    (id : String) (h : Store) (r : ℕ) (i : CartItem) (rs : List ℕ)
    → get_elem? h r ≡ some i
    → is_dish id i ≡ false
    → qty_in id (read (bump h r) rs) ≡ qty_in id (read h rs)
unfolding qty_in
qty_in-bump_other id h r i [] at other = refl
qty_in-bump_other id h r i (x ∷ rs) at other = elim (Option-cases (get_elem? h x)) [
  | inl gone ↦ ground (arith, get_elem?-bump h r x, qty_in-bump_other id h r i rs at other)
  | inr (j, here) ↦ ground (arith, get_elem?-bump h r x, qty_in-bump_other id h r i rs at other)
]

find_ref-append_store :
    (id : String) (h : Store) (i : CartItem) (rs : List ℕ)
    → AreRefs h rs
    → find_ref id (h ++ i ∷ []) rs ≡ find_ref id h rs
unfolding find_ref
find_ref-append_store id h i [] v = refl
find_ref-append_store id h i (x ∷ rs) (l, n, v) =
    ground (arith, get_elem?-append h i x l, find_ref-append_store id h i rs v)

AreRefs-append : (h : Store) (i : CartItem) (rs : List ℕ) → AreRefs h rs → AreRefs (h ++ i ∷ []) rs
AreRefs-append h i [] v = tt
AreRefs-append h i (r ∷ rs) (l, n, v) =
    (omega (arith, length-append h (i ∷ [])), n, AreRefs-append h i rs v)

-- What is kept about the previous state while the updater runs.
record Shares (id : String) (n r : ℕ) (prev : List ℕ) (h : Store) (next : List ℕ) : Type 0 where
  sound : AreRefs h prev
  listed : find_ref id h prev ≡ some r
  quantity : qty_in id (read h prev) ≡ n
  prefix : (extra : List ℕ) × (next ≡ prev ++ extra)

listed_first :
    (id k : String) (n r : ℕ) (prev : List ℕ) (h : Store) (next : List ℕ)
    → Shares id n r prev h next
    → str_eq k id ≡ true
    → find_ref k h next ≡ some r
listed_first id k n r prev h next s same =
    subst (λ j. find_ref j h next ≡ some r) (sym ((eq_iff k id).0 same))
      (rw (s.prefix.1) (ground (arith, find_ref-append id h prev s.prefix.0, s.listed)))

new_quantity :
    (id k : String) (n r : ℕ) (prev : List ℕ) (h : Store) (next : List ℕ)
    → Shares id n r prev h next
    → find_ref k h next ≡ none
    → qty_in id (read (h ++ item k 1 ∷ []) prev) ≡ (if str_eq k id then 1 else 0) + n
new_quantity id k n r prev h next s new = elim (Bool-cases (str_eq k id)) [
  | inl same ↦ absurd (cc (listed_first id k n r prev h next s same))
  | inr other ↦ rw (other, read-append h (item k 1) prev s.sound) (omega (arith, s.quantity))
]

found_quantity :
    (id k : String) (n r : ℕ) (prev : List ℕ) (h : Store) (next : List ℕ) (q : ℕ)
    → Shares id n r prev h next
    → find_ref k h next ≡ some q
    → qty_in id (read (bump h q) prev) ≡ (if str_eq k id then 1 else 0) + n
found_quantity id k n r prev h next q s found = elim (Bool-cases (str_eq k id)) [
  | inl same ↦
      let at : find_ref id h prev ≡ some q =
        s.listed ∙ (sym (listed_first id k n r prev h next s same) ∙ found) in
      rw (read-bump_found id h q prev s.sound at, same)
        (ground (arith, qty_in-add_one id id (read h prev), eq_refl id, s.quantity))
  | inr other ↦
      let (i, at, dish) = find_ref-some k h next q found in
      let apart : is_dish id i ≡ false =
        ground (arith, eq_iff k id, eq_iff i.dish_id k, eq_iff i.dish_id id) in
      rw other (omega (arith, qty_in-bump_other id h q i prev at apart, s.quantity))
]

Shares-round :
    (id k : String) (n r : ℕ) (prev : List ℕ) (h : Store) (next : List ℕ)
    → Shares id n r prev h next
    → let (h', next') = bundle_round k h next in
      Shares id ((if str_eq k id then 1 else 0) + n) r prev h' next'
Shares-round id k n r prev h next s = elim (Option-cases (find_ref k h next)) [
  | inl new ↦ rw (bundle_round_new k h next new) (record {
    sound = AreRefs-append h (item k 1) prev s.sound;
    listed = find_ref-append_store id h (item k 1) prev s.sound ∙ s.listed;
    quantity = new_quantity id k n r prev h next s new;
    prefix = (
      s.prefix.0 ++ length h ∷ [],
      rw (s.prefix.1) (append_assoc prev s.prefix.0 (length h ∷ [])),
    );
  })
  | inr (q, found) ↦ rw (bundle_round_found k h next q found) (record {
    sound = AreRefs-bump h q prev s.sound;
    listed = find_ref-bump id h q prev ∙ s.listed;
    quantity = found_quantity id k n r prev h next q s found;
    prefix = s.prefix;
  })
]

Shares-update :
    (id : String) (ids : List String) (n r : ℕ) (prev : List ℕ) (h : Store) (next : List ℕ)
    → Shares id n r prev h next
    → let (h', next') = update_bundle ids h next in Shares id (n + times_in id ids) r prev h' next'
unfolding update_bundle
Shares-update id [] n r prev h next s = subst (λ m. Shares id m r prev h next) (omega arith) s
Shares-update id (k ∷ ids) n r prev h next s =
    let (h', next') = bundle_round k h next in
    subst (λ m. Shares id m r prev (update_bundle ids h' next').0 (update_bundle ids h' next').1)
      (omega arith)
      (Shares-update id ids ((if str_eq k id then 1 else 0) + n) r prev h' next'
        (Shares-round id k n r prev h next s))

-- The updater writes to the state that it was given: the quantity of a dish that was in the cart,
-- read through the previous state after the update, has grown by the times that the bundle lists it.
pub previous_state_changes :
    (id : String) (ids : List String) (h : Store) (prev : List ℕ)
    → AreRefs h prev
    → is_some (find_ref id h prev) ≡ true
    → let (h', next) = update_bundle ids h prev in
      AreRefs h' prev × (qty_in id (read h' prev) ≡ qty_in id (read h prev) + times_in id ids)
previous_state_changes id ids h prev v listed = elim (Option-cases (find_ref id h prev)) [
  | inl none_listed ↦ absurd (ground arith)
  | inr (r, at) ↦
      let s = Shares-update id ids (qty_in id (read h prev)) r prev h prev (record {
        sound = v;
        listed = at;
        quantity = refl;
        prefix = ([], sym (append-nil prev));
      }) in
      (s.sound, s.quantity)
]

-- A second run of the updater on the same previous state, which React makes in development, counts a
-- dish that was in the cart twice as often as the bundle lists it.
pub second_run_counts_twice :
    (id : String) (ids : List String) (h : Store) (prev : List ℕ)
    → AreRefs h prev
    → is_some (find_ref id h prev) ≡ true
    → let h' = (update_bundle ids h prev).0 in
      let (h'', next) = update_bundle ids h' prev in
      qty_in id (read h'' next) ≡ qty_in id (read h prev) + 2 * times_in id ids
second_run_counts_twice id ids h prev v listed =
    let h' = (update_bundle ids h prev).0 in
    let (v', once) = previous_state_changes id ids h prev v listed in
    let (twice, _) = read-update_bundle ids h' prev v' in
    rw twice (omega (arith, qty_in-add_all id ids (read h' prev), once))
