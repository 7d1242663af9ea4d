-- ===== src/Orders/Place/Retry.antt =====
-- Placing a cart again with its idempotency key.
use mathlib.Core.List.{Permᴰ}
use dinner_rush.Prelude.{
  ℕ, String, Bool, true, false, some, get_or, List, [], ◌∷◌, map, ◌≡◌, refl, sym, ◌∙◌, ap, subst,
  sum_of, arith, All, Occurs, All-mono, All-map, All-Occurs_self, Occurs-map, Option-cases, length,
  ◌==◌, Bool-cases, inl, inr,
}
use dinner_rush.Prelude.Sort.{sort, IsOrder, sort_perm, All-Permᴰ, sum_of-Permᴰ, map-Permᴰ}
use dinner_rush.OrderApi.{PlaceOrderInput, PlaceOrderResult, ok, error}
use dinner_rush.Orders.Token.{Codec, TokenOrder}
use dinner_rush.Orders.Ingestion.{Table, id_of}
use dinner_rush.Orders.Ingestion.Laws.{Keeps}
use dinner_rush.Orders.Place.{
  Group, served, Post, order_key, items_total, place_all, finish, place_cart, not_after,
  customer_of, group_items,
}
use dinner_rush.Orders.Place.Posts.{
  Outcome-cases, group_of, entry_in, IsKnown, place_all-IsPlacedAll, place_all_known,
  place_all_served,
}

module _ (cart_key : String) where
  entry_in_kept :
      (t u : Table) (g : Group)
      → Keeps t u
      → IsKnown cart_key t g
      → (entry_in cart_key t g ≡ entry_in cart_key u g) × IsKnown cart_key u g
  unfolding entry_in
  entry_in_kept t u g k h = elim (Option-cases (id_of (order_key cart_key g.0) t)) [
    | inl e ↦ absurd (cc (rw e at h))
    | inr (id, e) ↦ rw (e, k _ id e) (refl, refl)
  ]

  entries_kept :
      (t u : Table) (gs : List Group)
      → Keeps t u
      → All (IsKnown cart_key t) gs
      → (map (entry_in cart_key t) gs ≡ map (entry_in cart_key u) gs) × All (IsKnown cart_key u) gs
  entries_kept t u [] k h = (refl, tt)
  entries_kept t u (g ∷ gs) k (h, hs) =
      let (same, known) = entry_in_kept t u g k h in
      let (rest, all_known) = entries_kept t u gs k hs in (λ i. same i ∷ rest i, (known, all_known))

pub ok_injective : (r s : PlaceOrderResult) → ok r ≡ ok s → r ≡ s
ok_injective r s e = cc

module _ (codec : Codec) (collate : String → String → Bool) (order : IsOrder collate) where
  not_after-IsOrder : IsOrder (not_after codec collate)
  not_after-IsOrder = record {
    total = λ x y. order.total x.r y.r;
    transitive = λ x y z. order.transitive x.r y.r z.r;
  }

  module _ (key : String) (t : Table) (names : List String) where
    -- Entries of one table with the same restaurant are the same.
    IsEntry : TokenOrder → Type 0
    IsEntry e = Occurs e.r names × (e.id ≡ get_or (id_of (order_key key e.r) t) "")

    sort_entries :
        {gs hs : List Group}
        → ((a b : String)
            → Occurs a names
            → Occurs b names
            → collate a b ≡ true
            → collate b a ≡ true
            → a ≡ b)
        → Permᴰ gs hs
        → All (λ g. Occurs g.0 names) gs
        → sort (not_after codec collate) (map (entry_in key t) gs)
          ≡ sort (not_after codec collate) (map (entry_in key t) hs)
    unfolding IsEntry entry_in
    sort_entries {gs} {hs} apart perm h =
        sort_perm (not_after codec collate) not_after-IsOrder IsEntry
          (λ x y p q xy yx.
            let same : x.r ≡ y.r = apart x.r y.r p.0 q.0 xy yx in
            let id : x.id ≡ y.id =
              p.1 ∙ ap (λ r. get_or (id_of (order_key key r) t) "") same ∙ sym q.1 in
            λ i. record { id = id i; r = same i })
          (map-Permᴰ (entry_in key t) perm)
          (All-map IsEntry (entry_in key t) gs (
            All-mono (λ g. Occurs g.0 names) (λ g. IsEntry (entry_in key t g)) (λ g o. (o, refl)) gs
              h))

  abbrev pub TellsApart : List String → Type 0
  TellsApart names =
      (a b : String)
      → Occurs a names
      → Occurs b names
      → collate a b ≡ true
      → collate b a ≡ true
      → a ≡ b

  abbrev pub order_names : List Group → List String
  order_names gs = map (λ g. g.0) gs

  groups-Occurs : (gs : List Group) → All (λ g. Occurs g.0 (order_names gs)) gs
  groups-Occurs gs =
      All-mono (λ g. Occurs g gs) (λ g. Occurs g.0 (order_names gs))
        (λ g o. Occurs-map (λ h. h.0) g gs o) gs (All-Occurs_self gs)

  module _ (key customer : String) (t t2 : Table) (first second : List Post) where
    groups_known :
        (ps : List TokenOrder) (n : ℕ)
        → (place_all key customer t first [] 0).1 ≡ ok (ps, n)
        → Keeps (place_all key customer t first [] 0).0 t2
        → Permᴰ (map group_of first) (map group_of second)
        → (ps ≡ map (entry_in key t2) (map group_of first))
          × (n ≡ sum_of (λ g. items_total g.1) (map group_of first))
          × All (IsKnown key t2) (map group_of second)
    groups_known ps n e keeps perm =
        let run = place_all key customer t first [] 0 in
        let (list, sum, known) = (place_all-IsPlacedAll key customer t first [] 0).result ps n e in
        let (kept, all_known) = entries_kept key run.0 t2 (map group_of first) keeps known in
        (list ∙ kept, omega (arith, sum), All-Permᴰ (IsKnown key t2) perm all_known)

    second_run :
        (ps qs : List TokenOrder) (n m : ℕ)
        → (place_all key customer t first [] 0).1 ≡ ok (ps, n)
        → Keeps (place_all key customer t first [] 0).0 t2
        → Permᴰ (map group_of first) (map group_of second)
        → TellsApart (order_names (map group_of first))
        → (place_all key customer t2 second [] 0).1 ≡ ok (qs, m)
        → (sort (not_after codec collate) qs ≡ sort (not_after codec collate) ps) × (m ≡ n)
    second_run ps qs n m e keeps perm apart f =
        let (list, sum, known) = groups_known ps n e keeps perm in
        let (list2, sum2, _) = (place_all-IsPlacedAll key customer t2 second [] 0).result qs m f in
        let same = place_all_known key customer t2 second [] 0 known in
        let order_le = not_after codec collate in
        (
          ap (sort order_le) (list2 ∙ ap (λ u. map (entry_in key u) (map group_of second)) same)
              ∙ sym (
                  sort_entries key t2 (order_names (map group_of first)) apart perm
                    (groups-Occurs (map group_of first)))
              ∙ ap (sort order_le) (sym list),
          omega (arith, sum, sum2, sum_of-Permᴰ (λ (g : Group). items_total g.1) perm),
        )

  pub place_cart_ok :
      (t : Table) (new_key : String) (input : PlaceOrderInput) (posts : List Post)
      (r : PlaceOrderResult)
      → (place_cart codec collate t new_key input posts).1 ≡ ok r
      → let key = get_or input.idempotency_key new_key in
        (ps : List TokenOrder) × (n : ℕ) × (place_all key (customer_of input) t posts [] 0
          ≡ ((place_cart codec collate t new_key input posts).0, ok (ps, n)))
        × (finish codec collate input key (ok (ps, n)) ≡ ok r)
        × ((length (group_items input.items []) == 0) ≡ false)
  unfolding place_cart
  place_cart_ok t new_key input posts r f =
      let key = get_or input.idempotency_key new_key in
      elim (Bool-cases (length (group_items input.items []) == 0)) [
        | inl z ↦ absurd (cc (rw z at f))
        | inr z ↦ elim (Outcome-cases (place_all key (customer_of input) t posts [] 0).1) [
          | inl ((ps, n), g) ↦
              let run = place_all key (customer_of input) t posts [] 0 in
              (ps, n, rw z (λ i. (run.0, g i)), rw g at (rw z at f), z)
          | inr (m, g) ↦ absurd (cc (rw g at (rw z at f)))
        ]
      ]

  -- The table after a run of the posts, when the cart has lines.
  place_cart-run :
      (t : Table) (key new_key : String) (input : PlaceOrderInput) (posts : List Post)
      → get_or input.idempotency_key new_key ≡ key
      → (length (group_items input.items []) == 0) ≡ false
      → let run = place_all key (customer_of input) t posts [] 0 in
        place_cart codec collate t new_key input posts
        ≡ (run.0, finish codec collate input key run.1)
  unfolding place_cart
  place_cart-run t key new_key input posts e z = rw (z, e) refl

  finish_error :
      (input : PlaceOrderInput) (key message : String) (r : PlaceOrderResult)
      → ¬ (finish codec collate input key (error message) ≡ ok r)
  unfolding finish
  finish_error input key message r e = cc

  finish_same :
      (input : PlaceOrderInput) (key : String) (ps qs : List TokenOrder) (n m : ℕ)
      → (sort (not_after codec collate) qs ≡ sort (not_after codec collate) ps) × (m ≡ n)
      → finish codec collate input key (ok (qs, m)) ≡ finish codec collate input key (ok (ps, n))
  unfolding finish
  finish_same input key ps qs n m (s, e) = rw (s, e) refl

  -- Placing a cart, and then placing it again with the same idempotency key once more orders may have
  -- come in. Whatever becomes of the posts of the second attempt, it adds no order; where it succeeds,
  -- it has the result of the first, token included, in whatever order the posts were answered; and it
  -- succeeds where all its posts are served and answered. `localeCompare` orders the restaurants of
  -- the cart, and tells them apart.
  pub place_cart_again :
      (input : PlaceOrderInput) (key new_key again_key : String) (t t2 : Table)
      (first second : List Post) (r1 : PlaceOrderResult)
      → input.idempotency_key ≡ some key
      → Permᴰ (map group_of first) (map group_of second)
      → TellsApart (order_names (map group_of first))
      → (place_cart codec collate t new_key input first).1 ≡ ok r1
      → Keeps (place_cart codec collate t new_key input first).0 t2
      → ((place_cart codec collate t2 again_key input second).0 ≡ t2)
        × ((r2 : PlaceOrderResult)
            → (place_cart codec collate t2 again_key input second).1 ≡ ok r2
            → r2 ≡ r1)
        × (All (λ p. p.fate ≡ served) second
            → (place_cart codec collate t2 again_key input second).1 ≡ ok r1)
  place_cart_again input key new_key again_key t t2 first second r1 has_key perm apart won keeps =
      let customer = customer_of input in
      let same_key : get_or input.idempotency_key new_key ≡ key =
        ap (λ k. get_or k new_key) has_key in
      let again : get_or input.idempotency_key again_key ≡ key =
        ap (λ k. get_or k again_key) has_key in
      let (ps, n, ran, result, z) = place_cart_ok t new_key input first r1 won in
      let ran1 = place_cart-run t key new_key input first same_key z in
      let ran2 = place_cart-run t2 key again_key input second again z in
      let e : (place_all key customer t first [] 0).1 ≡ ok (ps, n) =
        subst (λ k. (place_all k customer t first [] 0).1 ≡ ok (ps, n)) same_key
          (ap (λ x. x.1) ran) in
      let kept : Keeps (place_all key customer t first [] 0).0 t2 =
        subst (λ x. Keeps x.0 t2) ran1 keeps in
      let (list, sum, known) = groups_known key customer t t2 first second ps n e kept perm in
      let done : finish codec collate input key (ok (ps, n)) ≡ ok r1 =
        subst (λ k. finish codec collate input k (ok (ps, n)) ≡ ok r1) same_key result in
      let agrees =
        λ (qs : List TokenOrder) (m : ℕ)
            (f : (place_all key customer t2 second [] 0).1 ≡ ok (qs, m)).
          finish_same input key ps qs n m
            (second_run key customer t t2 first second ps qs n m e kept perm apart f)
          ∙ done in
      rw ran2 (
        place_all_known key customer t2 second [] 0 known,
        λ r2 f. elim (Outcome-cases (place_all key customer t2 second [] 0).1) [
          | inl ((qs, m), g) ↦ ok_injective r2 r1 (sym (rw g at f) ∙ agrees qs m g)
          | inr (message, g) ↦ elim (finish_error input key message r2 (rw g at f)) [ ]
        ],
        λ served.
            let ((qs, m), g) = place_all_served key customer t2 second [] 0 served in
            rw g (agrees qs m g),
      )
