-- ===== src/Orders/Place/Posts.antt =====
-- What the posts of a cart do to the table of orders, whatever their fates.
use dinner_rush.Prelude.{
  ℕ, ◌+◌, String, true, Option, none, some, get_or, List, [], ◌∷◌, ◌++◌, map, ◌≡◌, refl, sym, ◌∙◌,
  ap, sum_of, arith, All, is_some, inl, inr, ◌⊎◌,
}
use mathlib.Core.List.{append_assoc, append-nil}
use dinner_rush.Prelude.Maps.{no_repeats}
use dinner_rush.OrderApi.{answered, Outcome, ok, error}
use dinner_rush.Orders.Token.{TokenOrder}
use dinner_rush.Orders.Ingestion.{OrderRequest, Table, post, id_of}
use dinner_rush.Orders.Ingestion.Laws.{Keeps, Keeps-refl, Keeps-trans, table_keys, post-IsPost}
use dinner_rush.Orders.Place.{
  Group, Fate, served, cut, dropped, refused, Post, order_key, order_request, serve, read_reply,
  items_total, place_one, run_rest, place_all,
}

abbrev pub group_of : Post → Group
group_of p = p.group

-- What one post does, whatever its fate.
record IsPlaced (key r : String) (t u : Table) (outcome : Outcome TokenOrder) : Type 0 where
  keeps : Keeps t u
  unique : no_repeats (table_keys t) ≡ true → no_repeats (table_keys u) ≡ true
  found : (o : TokenOrder) → outcome ≡ ok o → (o.r ≡ r) × (id_of key u ≡ some o.id)
  known : (old : String) → id_of key t ≡ some old → u ≡ t

read_answered :
    (r : String) (status : ℕ) (id : String) (o : TokenOrder)
    → read_reply r (answered status id) ≡ ok o
    → (o.r ≡ r) × (o.id ≡ id)
unfolding read_reply
read_answered r status id o e = ground arith

serve-IsPlaced :
    (fate : Fate) (t : Table) (new_id r : String) (req : OrderRequest)
    → let (u, reply) = serve fate t new_id req in
      IsPlaced req.idempotency_key r t u (read_reply r reply)
unfolding serve read_reply
serve-IsPlaced served t new_id r req =
    let p = post-IsPost t new_id req in
    record {
      keeps = p.keeps;
      unique = p.unique;
      found = λ o e.
          let (same, id) = read_answered r (post t new_id req).1 (post t new_id req).2 o e in
          (same, p.found ∙ ap some (sym id));
      known = λ old e. (p.known old e).0;
    }
serve-IsPlaced cut t new_id r req =
    let p = post-IsPost t new_id req in
    record {
      keeps = p.keeps;
      unique = p.unique;
      found = λ o e. absurd (cc);
      known = λ old e. (p.known old e).0;
    }
serve-IsPlaced dropped t new_id r req = record {
  keeps = Keeps-refl t;
  unique = λ h. h;
  found = λ o e. absurd (cc);
  known = λ old e. refl;
}
serve-IsPlaced (refused status) t new_id r req = record {
  keeps = Keeps-refl t;
  unique = λ h. h;
  found = λ o e. absurd (ground arith);
  known = λ old e. refl;
}

some_of : {A : Type 0} (x : Option A) → is_some x ≡ true → (a : A) × (x ≡ some a)
some_of none h = absurd (cc)
some_of (some a) h = (a, refl)

pub Outcome-cases :
    {A : Type 0} (x : Outcome A) → ((a : A) × (x ≡ ok a)) ⊎ ((m : String) × (x ≡ error m))
Outcome-cases (ok a) = inl (a, refl)
Outcome-cases (error m) = inr (m, refl)

-- The entry of the token for a restaurant, by what its key stands for.
unfoldable pub entry_in : String → Table → Group → TokenOrder
entry_in cart_key u g = record { id = get_or (id_of (order_key cart_key g.0) u) ""; r = g.0 }

abbrev pub IsKnown : String → Table → Group → Type 0
IsKnown cart_key u g = is_some (id_of (order_key cart_key g.0) u) ≡ true

module _ (cart_key customer : String) where
  place_one-IsPlaced :
      (t : Table) (p : Post)
      → let (u, outcome) = place_one cart_key customer t p in
        IsPlaced (order_key cart_key p.group.0) p.group.0 t u outcome
  unfolding place_one order_request
  place_one-IsPlaced t p =
      serve-IsPlaced p.fate t p.new_id p.group.0 (order_request cart_key customer p.group)

  run_rest-Keeps : (t : Table) (posts : List Post) → Keeps t (run_rest cart_key customer t posts)
  unfolding run_rest
  run_rest-Keeps t [] = Keeps-refl t
  run_rest-Keeps t (p ∷ posts) =
      let u = (place_one cart_key customer t p).0 in
      Keeps-trans t u (run_rest cart_key customer u posts) (place_one-IsPlaced t p).keeps
        (run_rest-Keeps u posts)

  run_rest_unique :
      (t : Table) (posts : List Post)
      → no_repeats (table_keys t) ≡ true
      → no_repeats (table_keys (run_rest cart_key customer t posts)) ≡ true
  unfolding run_rest
  run_rest_unique t [] h = h
  run_rest_unique t (p ∷ posts) h =
      run_rest_unique (place_one cart_key customer t p).0 posts ((place_one-IsPlaced t p).unique h)

  pub record IsPlacedAll (t : Table) (posts : List Post) (placed : List TokenOrder) (total : ℕ)
      (u : Table) (outcome : Outcome (List TokenOrder × ℕ)) : Type 0 where
    pub keeps : Keeps t u
    pub unique : no_repeats (table_keys t) ≡ true → no_repeats (table_keys u) ≡ true
    pub result :
        (ps : List TokenOrder) (n : ℕ)
        → outcome ≡ ok (ps, n)
        → (ps ≡ placed ++ map (entry_in cart_key u) (map group_of posts))
          × (n ≡ total + sum_of (λ g. items_total g.1) (map group_of posts))
          × All (IsKnown cart_key u) (map group_of posts)

  entry_found :
      (u v : Table) (p : Post) (o : TokenOrder)
      → (o.r ≡ p.group.0) × (id_of (order_key cart_key p.group.0) u ≡ some o.id)
      → Keeps u v
      → (o ≡ entry_in cart_key v p.group) × IsKnown cart_key v p.group
  unfolding entry_in
  entry_found u v p o (r, at) k = let at' = k _ _ at in (rw at' (ground arith), rw at')

  place_all_ok :
      (t : Table) (p : Post) (posts : List Post) (placed : List TokenOrder) (total : ℕ)
      (o : TokenOrder)
      → (place_one cart_key customer t p).1 ≡ ok o
      → place_all cart_key customer t (p ∷ posts) placed total
        ≡ place_all cart_key customer
            (place_one cart_key customer t p).0
            posts
            (placed ++ o ∷ [])
            (total + items_total p.group.1)
  unfolding place_all
  place_all_ok t p posts placed total o e = rw (e, place_all)

  place_all_error :
      (t : Table) (p : Post) (posts : List Post) (placed : List TokenOrder) (total : ℕ) (m : String)
      → (place_one cart_key customer t p).1 ≡ error m
      → place_all cart_key customer t (p ∷ posts) placed total
        ≡ (run_rest cart_key customer (place_one cart_key customer t p).0 posts, error m)
  unfolding place_all
  place_all_error t p posts placed total m e = rw (e, place_all)

  pub place_all-IsPlacedAll :
      (t : Table) (posts : List Post) (placed : List TokenOrder) (total : ℕ)
      → let (u, outcome) = place_all cart_key customer t posts placed total in
        IsPlacedAll t posts placed total u outcome
  unfolding place_all
  place_all-IsPlacedAll t [] placed total = record {
    keeps = Keeps-refl t;
    unique = λ h. h;
    result = λ ps n e.
        let list : ps ≡ placed = cc in
        let sum : n ≡ total = cc in (list ∙ sym (append-nil placed), omega (arith, sum), tt);
  }
  place_all-IsPlacedAll t (p ∷ posts) placed total =
      let (u, outcome) = place_one cart_key customer t p in
      let one = place_one-IsPlaced t p in
      elim (Outcome-cases (place_one cart_key customer t p).1) [
        | inl (o, e) ↦
            let rest =
              place_all-IsPlacedAll u posts (placed ++ o ∷ []) (total + items_total p.group.1) in
            rw (place_all_ok t p posts placed total o e) (record {
              keeps = Keeps-trans t u _ one.keeps rest.keeps;
              unique = λ h. rest.unique (one.unique h);
              result = λ ps n f.
                  let (list, sum, found) = rest.result ps n f in
                  let (same, here) = entry_found u _ p o (one.found o e) rest.keeps in
                  (
                    list
                        ∙ append_assoc placed (o ∷ []) _
                        ∙ ap
                            (λ (x : TokenOrder).
                              placed
                              ++ (x
                                  ∷ map
                                      (entry_in cart_key
                                        (place_all cart_key customer u posts (placed ++ o ∷ [])
                                          (total + items_total p.group.1)).0)
                                      (map group_of posts)))
                            same,
                    omega (arith, sum),
                    (here, found),
                  );
            })
        | inr (m, e) ↦ rw (place_all_error t p posts placed total m e) (record {
          keeps = Keeps-trans t u _ one.keeps (run_rest-Keeps u posts);
          unique = λ h. run_rest_unique u posts (one.unique h);
          result = λ ps n f. absurd (cc);
        })
      ]

  -- Once all the keys are known, no attempt changes the table.
  run_rest_known :
      (t : Table) (posts : List Post)
      → All (IsKnown cart_key t) (map group_of posts)
      → run_rest cart_key customer t posts ≡ t
  unfolding run_rest
  run_rest_known t [] h = refl
  run_rest_known t (p ∷ posts) (h, hs) =
      let (id, e) = some_of (id_of (order_key cart_key p.group.0) t) h in
      rw ((place_one-IsPlaced t p).known id e) (run_rest_known t posts hs)

  pub place_all_known :
      (t : Table) (posts : List Post) (placed : List TokenOrder) (total : ℕ)
      → All (IsKnown cart_key t) (map group_of posts)
      → (place_all cart_key customer t posts placed total).0 ≡ t
  unfolding place_all
  place_all_known t [] placed total h = refl
  place_all_known t (p ∷ posts) placed total (h, hs) =
      let (id, known) = some_of (id_of (order_key cart_key p.group.0) t) h in
      let same = (place_one-IsPlaced t p).known id known in
      elim (Outcome-cases (place_one cart_key customer t p).1) [
        | inl (o, e) ↦ rw (place_all_ok t p posts placed total o e) (
            rw same (place_all_known t posts (placed ++ o ∷ []) (total + items_total p.group.1) hs))
        | inr (m, e) ↦
            rw (place_all_error t p posts placed total m e) (rw same (run_rest_known t posts hs))
      ]

  served_ok :
      (t : Table) (p : Post)
      → p.fate ≡ served
      → (o : TokenOrder) × ((place_one cart_key customer t p).1 ≡ ok o)
  unfolding place_one serve read_reply post
  served_ok t p e = elim (Outcome-cases (place_one cart_key customer t p).1) [
    | inl x ↦ x
    | inr (m, f) ↦ absurd (ground (arith, e, f))
  ]

  -- Posts that are all served and answered all succeed.
  pub place_all_served :
      (t : Table) (posts : List Post) (placed : List TokenOrder) (total : ℕ)
      → All (λ p. p.fate ≡ served) posts
      → (r : List TokenOrder × ℕ) × ((place_all cart_key customer t posts placed total).1 ≡ ok r)
  unfolding place_all
  place_all_served t [] placed total h = ((placed, total), refl)
  place_all_served t (p ∷ posts) placed total (h, hs) =
      let (o, e) = served_ok t p h in
      rw (place_all_ok t p posts placed total o e) (
        place_all_served (place_one cart_key customer t p).0 posts (placed ++ o ∷ [])
          (total + items_total p.group.1) hs)
