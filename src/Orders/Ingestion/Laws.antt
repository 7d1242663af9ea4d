-- ===== src/Orders/Ingestion/Laws.antt =====
-- What the table of orders keeps: every key once, and every order for good.
use dinner_rush.Prelude.{
  ℕ, String, true, false, none, some, List, [], ◌∷◌, ◌++◌, map, ◌≡◌, refl, str_eq, eq_iff, eq_refl,
  find?, Option-cases, inl, inr, arith,
}
use dinner_rush.Prelude.Maps.{includes, no_repeats}
use dinner_rush.Orders.Ingestion.{OrderRequest, StoredOrder, Table, has_key, post, id_of}

-- Every key that stands for an order still stands for it.
abbrev pub Keeps : Table → Table → Type 0
Keeps t u = (k id : String) → id_of k t ≡ some id → id_of k u ≡ some id

pub Keeps-refl : (t : Table) → Keeps t t
Keeps-refl t k id e = e

pub Keeps-trans : (t u v : Table) → Keeps t u → Keeps u v → Keeps t v
Keeps-trans t u v f g k id e = g k id (f k id e)

abbrev pub table_keys : Table → List String
table_keys t = map (λ o. o.request.idempotency_key) t

id_of-append :
    (k : String) (t : Table) (o : StoredOrder) (id : String)
    → id_of k t ≡ some id
    → id_of k (t ++ o ∷ []) ≡ some id
unfolding id_of
id_of-append k [] o id e = absurd (cc)
id_of-append k (x ∷ t) o id e = ground (arith, id_of-append k t o id)

id_of-pushed :
    (k : String) (t : Table) (o : StoredOrder)
    → find? (has_key k) t ≡ none
    → has_key k o ≡ true
    → id_of k (t ++ o ∷ []) ≡ some o.order_id
unfolding id_of
id_of-pushed k [] o n h = ground arith
id_of-pushed k (x ∷ t) o n h = ground (arith, id_of-pushed k t o)

includes-push :
    (k j : String) (t : Table) (o : StoredOrder)
    → includes (table_keys t) j ≡ false
    → str_eq o.request.idempotency_key j ≡ false
    → includes (table_keys (t ++ o ∷ [])) j ≡ false
includes-push k j [] o n h = ground arith
includes-push k j (x ∷ t) o n h = ground (arith, includes-push k j t o)

no_repeats-push :
    (t : Table) (o : StoredOrder)
    → find? (has_key o.request.idempotency_key) t ≡ none
    → no_repeats (table_keys t) ≡ true
    → no_repeats (table_keys (t ++ o ∷ [])) ≡ true
no_repeats-push [] o n h = refl
no_repeats-push (x ∷ t) o n h = ground (
  arith,
  no_repeats-push t o,
  includes-push x.request.idempotency_key x.request.idempotency_key t o,
  eq_iff o.request.idempotency_key x.request.idempotency_key,
  eq_iff x.request.idempotency_key o.request.idempotency_key,
)

-- What `POST /orders` has to make of the table, and what it has to answer.
pub record IsPost (t : Table) (new_id : String) (req : OrderRequest) (u : Table) (status : ℕ)
    (id : String) : Type 0 where
  pub found : id_of req.idempotency_key u ≡ some id
  pub keeps : Keeps t u
  pub unique : no_repeats (table_keys t) ≡ true → no_repeats (table_keys u) ≡ true
  pub known : (old : String) → id_of req.idempotency_key t ≡ some old → (u ≡ t) × (status ≡ 200)

-- `POST /orders` as a whole: the answered id is the one that the key stands for from then on, no other
-- key changes its order, no key is ever stored twice, and the status says which it was.
pub post-IsPost :
    (t : Table) (new_id : String) (req : OrderRequest)
    → let (u, status, id) = post t new_id req in IsPost t new_id req u status id
unfolding id_of post
post-IsPost t new_id req = elim (Option-cases (find? (has_key req.idempotency_key) t)) [
  | inl new ↦
      let o : StoredOrder = record { order_id = new_id; request = req } in
      rw (new, post)
        (record {
          found = id_of-pushed req.idempotency_key t o new (eq_refl req.idempotency_key);
          keeps = λ k id e. id_of-append k t o id e;
          unique = no_repeats-push t o new;
          known = λ old e. absurd (cc (rw new at e));
        })
  | inr (o, old) ↦
      rw (old, post)
        (record {
          found = rw old;
          keeps = λ k id e. e;
          unique = λ h. h;
          known = λ i e. (refl, refl);
        })
]
