-- ===== src/Cart/Totals/Groups.antt =====
-- The groups of the derived values: one for each kitchen, each with its own lines and sums.
use dinner_rush.Prelude.{
  ℕ, ◌*◌, String, true, some, List, [], ◌∷◌, map, ◌≡◌, refl, sym, ◌∙◌, arith, sum_of, sum_of-append,
  Option-cases, inl, inr, All, All-append, get_or, subst,
}
use dinner_rush.Prelude.Maps.{
  lookup, keys, no_repeats, insert-All, lookup-All, sum_of-insert, no_repeats-insert,
}
use mathlib.Core.Option.{some-injective}
use dinner_rush.Types.{Dish, Restaurant, CartItem}
use dinner_rush.Catalog.{dish_map}
use dinner_rush.Catalog.Integrity.{restaurant_map-id}
use dinner_rush.Cart.Totals.{
  GroupedRestaurant, Tally, no_tally, new_group, add_line, tally_line, valid_items, tally, Derived,
  summarise, derive, serves_twice,
}
use dinner_rush.Cart.Totals.Laws.{kitchen_found, tally_off_menu, tally_on_menu}

abbrev pub price_of : Dish × ℕ → ℕ
price_of l = l.0.price * l.1

abbrev pub servings_of : Dish × ℕ → ℕ
servings_of l = serves_twice l.0 * l.1

-- A group under the key of its restaurant: its lines are that restaurant's, and its sums are theirs.
pub record IsGroup (k : String) (g : GroupedRestaurant) : Type 0 where
  pub kitchen : g.restaurant.id ≡ k
  pub lines : All (λ (l : Dish × ℕ). l.0.restaurant_id ≡ k) g.lines
  pub subtotal : g.subtotal ≡ sum_of price_of g.lines
  pub servings : g.servings ≡ sum_of servings_of g.lines

abbrev IsGroupEntry : String × GroupedRestaurant → Type 0
IsGroupEntry e = IsGroup e.0 e.1

pub record IsPartition (t : Tally) : Type 0 where
  pub keys_differ : no_repeats (keys t.groups) ≡ true
  pub groups : All IsGroupEntry t.groups
  pub subtotal : sum_of (λ (e : String × GroupedRestaurant). e.1.subtotal) t.groups ≡ t.subtotal
  pub servings : sum_of (λ (e : String × GroupedRestaurant). e.1.servings) t.groups ≡ t.servings

new_group-IsGroup : (r : Restaurant) → IsGroup r.id (new_group r)
new_group-IsGroup r = record { kitchen = refl; lines = tt; subtotal = refl; servings = refl }

add_line-IsGroup :
    (k : String) (d : Dish) (qty : ℕ) (g : GroupedRestaurant)
    → d.restaurant_id ≡ k
    → IsGroup k g
    → IsGroup k (add_line d qty g)
add_line-IsGroup k d qty g e h = record {
  kitchen = h.kitchen;
  lines =
      All-append (λ (l : Dish × ℕ). l.0.restaurant_id ≡ k) g.lines ((d, qty) ∷ []) h.lines (e, tt);
  subtotal = omega (arith, sum_of-append price_of g.lines ((d, qty) ∷ []), h.subtotal);
  servings = omega (arith, sum_of-append servings_of g.lines ((d, qty) ∷ []), h.servings);
}

-- The group that a round writes to.
abbrev group_at : Restaurant → List (String × GroupedRestaurant) → GroupedRestaurant
group_at r m = get_or (lookup r.id m) (new_group r)

group_at-IsGroup :
    (r : Restaurant) (m : List (String × GroupedRestaurant))
    → All IsGroupEntry m
    → IsGroup r.id (group_at r m)
group_at-IsGroup r m h = elim (Option-cases (lookup r.id m)) [
  | inl new ↦ rw new (new_group-IsGroup r)
  | inr (g, old) ↦ rw old (lookup-All IsGroupEntry r.id g m h old)
]

tally_line-IsPartition :
    (d : Dish) (r : Restaurant) (qty : ℕ) (t : Tally)
    → d.restaurant_id ≡ r.id
    → IsPartition t
    → IsPartition (tally_line d r qty t)
unfolding tally_line
tally_line-IsPartition d r qty t e h =
    let g : GroupedRestaurant = group_at r t.groups in
    let new : GroupedRestaurant = add_line d qty g in
    record {
      keys_differ = no_repeats-insert r.id new t.groups h.keys_differ;
      groups =
          insert-All IsGroupEntry r.id new t.groups h.groups
            (add_line-IsGroup r.id d qty g e (group_at-IsGroup r t.groups h.groups));
      subtotal = ground (
        arith,
        sum_of-insert (λ (x : GroupedRestaurant). x.subtotal) r.id new t.groups,
        h.subtotal,
      );
      servings = ground (
        arith,
        sum_of-insert (λ (x : GroupedRestaurant). x.servings) r.id new t.groups,
        h.servings,
      );
    }

tally-IsPartition :
    (items : List CartItem) (t t' : Tally)
    → tally items t ≡ some t'
    → IsPartition t
    → IsPartition t'
unfolding tally
tally-IsPartition [] t t' e h = subst IsPartition (some-injective _ _ e) h
tally-IsPartition (i ∷ rest) t t' e h = elim (Option-cases (lookup i.dish_id dish_map)) [
  | inl off ↦ tally-IsPartition rest t t' (sym (tally_off_menu i rest t off) ∙ e) h
  | inr (d, on) ↦
      let (r, at) = kitchen_found i.dish_id d on in
      tally-IsPartition rest (tally_line d r i.qty t) t'
        (sym (tally_on_menu i rest t d r on at) ∙ e)
        (tally_line-IsPartition d r i.qty t (sym (restaurant_map-id _ r at)) h)
]

sum_of-map :
    {A B : Type 0} (f : B → ℕ) (g : A → B) (xs : List A)
    → sum_of f (map g xs) ≡ sum_of (λ x. f (g x)) xs
sum_of-map f g [] = refl
sum_of-map f g (x ∷ xs) = omega (arith, sum_of-map f g xs)

AreGroups_of_entries :
    (m : List (String × GroupedRestaurant))
    → All IsGroupEntry m
    → All (λ (g : GroupedRestaurant). IsGroup g.restaurant.id g) (map (λ e. e.1) m)
      × (map (λ (g : GroupedRestaurant). g.restaurant.id) (map (λ e. e.1) m) ≡ keys m)
AreGroups_of_entries [] h = (tt, refl)
AreGroups_of_entries ((k, g) ∷ m) (h, hs) =
    let (rest, ids) = AreGroups_of_entries m hs in
    ((subst (λ j. IsGroup j g) (sym h.kitchen) h, rest), rw (h.kitchen, ids))

-- The grouped cart is a partition by kitchen: no restaurant has two groups, every line of a group is a
-- dish of its restaurant, the group's subtotal and servings are the sums over its lines, and the
-- groups' subtotals and servings add up to those of the cart.
pub derive_groups :
    (items : List CartItem) (headcount : ℕ) {v : Derived}
    → derive items headcount ≡ some v
    → (no_repeats v.restaurant_ids ≡ true)
      × All (λ (g : GroupedRestaurant). IsGroup g.restaurant.id g) v.grouped
      × (sum_of (λ (g : GroupedRestaurant). g.subtotal) v.grouped ≡ v.subtotal)
      × (sum_of (λ (g : GroupedRestaurant). g.servings) v.grouped ≡ v.total_servings)
unfolding derive summarise
derive_groups items headcount {v} e = elim (Option-cases (tally (valid_items items) no_tally)) [
  | inl failed ↦ absurd (cc (rw (failed, derive) at e))
  | inr (t, run) ↦
      let p =
        tally-IsPartition (valid_items items) no_tally t run
          (record { keys_differ = refl; groups = tt; subtotal = refl; servings = refl }) in
      let (groups, ids) = AreGroups_of_entries t.groups p.groups in
      let same : summarise items headcount t ≡ v = some-injective _ _ (rw (run, derive) at e) in
      rw (← same) (
        rw ids p.keys_differ,
        groups,
        sum_of-map (λ (g : GroupedRestaurant). g.subtotal) (λ e. e.1) t.groups ∙ p.subtotal,
        sum_of-map (λ (g : GroupedRestaurant). g.servings) (λ e. e.1) t.groups ∙ p.servings,
      )
]
