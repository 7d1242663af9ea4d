-- ===== src/Prelude/Maps.antt =====
-- A JavaScript `Map`, or an object used as one, keyed by strings: an association list in the order of
-- first insertion, which is the order in which `Map.prototype.entries` yields.
use mathlib.Core.Path.{◌≡◌, refl, subst, sym, ap}
use mathlib.Core.Logic.{inl, inr}
use mathlib.Core.Bool.{Bool, true, false, not, ◌&&◌, ◌||◌}
use mathlib.Core.Option.{Option, none, some, some-injective}
use mathlib.Core.List.{List, [], ◌∷◌, map}
use native.Mathlib.Omega.{arith}
use Prim.Native.String.{String}
use text.Mathlib.Text.{◌==◌ as str_eq}
use text.Mathlib.TextEquality.{eq_iff}
use dinner_rush.Prelude.Tests.{if◌then◌else◌, Bool-cases}
use Prim.Native.Nat.{ℕ, ◌+◌}
use dinner_rush.Prelude.Lists.{any, sum_of}
use dinner_rush.Prelude.Predicates.{All, Occurs, All-map, Occurs-map}

abbrev pub includes : List String → String → Bool
includes xs k = any (λ x. str_eq x k) xs

abbrev pub no_repeats : List String → Bool
no_repeats [] = true
no_repeats (x ∷ xs) = not (includes xs x) && no_repeats xs

module _ {ℓ} {V : Type ℓ} where
  abbrev pub lookup : String → List (String × V) → Option V
  lookup k [] = none
  lookup k ((j, v) ∷ m) = if str_eq j k then some v else lookup k m

  abbrev pub insert : String → V → List (String × V) → List (String × V)
  insert k v [] = (k, v) ∷ []
  insert k v ((j, w) ∷ m) = if str_eq j k then (j, v) ∷ m else (j, w) ∷ insert k v m

  -- `Object.fromEntries`: a later entry with the same key replaces the earlier one.
  abbrev pub from_entries : List (String × V) → List (String × V) → List (String × V)
  from_entries m [] = m
  from_entries m ((k, v) ∷ es) = from_entries (insert k v m) es

  abbrev pub keys : List (String × V) → List String
  keys m = map (λ e. e.0) m

module _ {ℓ} {V : Type ℓ} where
  pub lookup-insert :
      (k j : String) (v : V) (m : List (String × V))
      → lookup j (insert k v m) ≡ (if str_eq k j then some v else lookup j m)
  lookup-insert k j v [] = refl
  lookup-insert k j v ((i, w) ∷ m) =
      ground (arith, eq_iff k j, eq_iff i k, eq_iff i j, lookup-insert k j v m)

  lookup-from_entries_new :
      (j : String) (m es : List (String × V))
      → includes (keys es) j ≡ false
      → lookup j (from_entries m es) ≡ lookup j m
  lookup-from_entries_new j m [] h = refl
  lookup-from_entries_new j m ((k, v) ∷ es) h =
      ground (arith, lookup-from_entries_new j (insert k v m) es, lookup-insert k j v m)

module _ {V : Type 0} where
  -- With no key twice, every entry is found under its key.
  pub lookup-from_entries :
      (j : String) (v : V) (m es : List (String × V))
      → no_repeats (keys es) ≡ true
      → Occurs (j, v) es
      → lookup j (from_entries m es) ≡ some v
  lookup-from_entries j v m [] h o = elim o [ ]
  lookup-from_entries j v m ((k, w) ∷ es) h (inl e) =
      ground (arith, lookup-from_entries_new j (insert k w m) es, lookup-insert k j w m, eq_iff k j)
  lookup-from_entries j v m ((k, w) ∷ es) h (inr o) =
      lookup-from_entries j v (insert k w m) es (ground arith) o

module _ {κ} {V : Type 0} (P : String × V → Type κ) where
  pub lookup-All :
      (k : String) (v : V) (m : List (String × V)) → All P m → lookup k m ≡ some v → P (k, v)
  lookup-All k v [] h e = absurd (cc)
  lookup-All k v ((j, w) ∷ m) (h, hs) e = elim (Bool-cases (str_eq j k)) [
    | inl same ↦
        subst (λ x. P (x, v)) ((eq_iff j k).0 same)
          (subst (λ x. P (j, x)) (some-injective _ _ (rw same at e)) h)
    | inr other ↦ lookup-All k v m hs (rw other at e)
  ]

  pub insert-All :
      (k : String) (v : V) (m : List (String × V)) → All P m → P (k, v) → All P (insert k v m)
  insert-All k v [] h p = (p, tt)
  insert-All k v ((j, w) ∷ m) (h, hs) p = elim (Bool-cases (str_eq j k)) [
    | inl same ↦ rw same (subst (λ x. P (x, v)) (sym ((eq_iff j k).0 same)) p, hs)
    | inr other ↦ rw other (h, insert-All k v m hs p)
  ]

  pub from_entries-All : (m es : List (String × V)) → All P m → All P es → All P (from_entries m es)
  from_entries-All m [] h hs = h
  from_entries-All m ((k, v) ∷ es) h (p, hs) =
      from_entries-All (insert k v m) es (insert-All k v m h p) hs

module _ {V : Type 0} (key : V → String) where
  abbrev entry : V → String × V
  entry x = (key x, x)

  -- `Object.fromEntries(xs.map((x) => [key(x), x]))`
  abbrev pub index_by : List V → List (String × V)
  index_by xs = from_entries [] (map entry xs)

  pub lookup-index_by :
      (x : V) (xs : List V)
      → no_repeats (map key xs) ≡ true
      → Occurs x xs
      → lookup (key x) (index_by xs) ≡ some x
  lookup-index_by x xs h o =
      lookup-from_entries (key x) x [] (map entry xs) (keys_of_entries xs h)
        (Occurs-map entry x xs o)
    where
      keys-entry : (ys : List V) → keys (map entry ys) ≡ map key ys
      keys-entry [] = refl
      keys-entry (y ∷ ys) = ap (◌∷◌ (key y)) (keys-entry ys)

      keys_of_entries :
          (ys : List V) → no_repeats (map key ys) ≡ true → no_repeats (keys (map entry ys)) ≡ true
      keys_of_entries ys e = rw (keys-entry ys) e

  -- What holds of every listed value under its key holds of all that is found.
  pub index_by-All {κ} :
      (Q : String → V → Type κ) (xs : List V)
      → All (λ x. Q (key x) x) xs
      → (k : String) (v : V) → lookup k (index_by xs) ≡ some v
      → Q k v
  index_by-All Q xs h k v e =
      let P : String × V → Type κ = λ p. Q p.0 p.1 in
      lookup-All P k v (index_by xs)
        (from_entries-All P [] (map entry xs) tt (All-map P entry xs h)) e

module _ {V : Type 0} where
  -- Replacing or adding one entry, seen through a sum over the values.
  pub sum_of-insert :
      (f : V → ℕ) (k : String) (v : V) (m : List (String × V))
      → sum_of (λ e. f e.1) (insert k v m) + elim (lookup k m) [ none ↦ 0 | some w ↦ f w ]
        ≡ sum_of (λ e. f e.1) m + f v
  sum_of-insert f k v [] = omega arith
  sum_of-insert f k v ((j, w) ∷ m) = ground (arith, sum_of-insert f k v m)

  pub includes-keys-insert :
      (k j : String) (v : V) (m : List (String × V))
      → includes (keys (insert k v m)) j ≡ (str_eq k j || includes (keys m) j)
  includes-keys-insert k j v [] = ground arith
  includes-keys-insert k j v ((i, w) ∷ m) =
      ground (arith, includes-keys-insert k j v m, eq_iff i k, eq_iff i j, eq_iff k j)

  pub no_repeats-insert :
      (k : String) (v : V) (m : List (String × V))
      → no_repeats (keys m) ≡ true
      → no_repeats (keys (insert k v m)) ≡ true
  no_repeats-insert k v [] h = refl
  no_repeats-insert k v ((j, w) ∷ m) h =
      ground (arith, no_repeats-insert k v m, includes-keys-insert k j v m, eq_iff j k, eq_iff k j)
