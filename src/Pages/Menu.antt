-- ===== src/Pages/Menu.antt =====
-- The menu of a restaurant's page, customer-web/src/app/restaurants/[slug]/page.tsx: its dishes under
-- their categories, in the order in which the categories are first seen.
use mathlib.Core.List.{append_assoc, append-nil}
use dinner_rush.Prelude.{
  String, none, get_or, List, [], ◌∷◌, ◌++◌, ◌≡◌, refl, sym, ◌∙◌, ap, str_eq, eq_iff, arith, filter,
  Bool-cases, inl, inr, if◌then◌else◌, true, false,
}
use dinner_rush.Prelude.Maps.{
  lookup, insert, keys, includes, no_repeats, no_repeats-insert, lookup-insert,
  includes-keys-insert,
}
use dinner_rush.Types.{Dish, Restaurant}
use dinner_rush.Catalog.{dishes_by_restaurant}

-- `categoryOrder` and `byCategory`.
record Menu : Type 0 where
  category_order : List String
  by_category : List (String × List Dish)

open_category : String → Menu → Menu
open_category c m = if includes (keys m.by_category) c then m else record {
  category_order = m.category_order ++ c ∷ [];
  by_category = insert c [] m.by_category;
}

-- `byCategory.get(category)!.push(dish)`, where the category has been opened.
file_dish : Dish → Menu → Menu
file_dish d m = record m {
  by_category =
      insert d.category (get_or (lookup d.category m.by_category) [] ++ d ∷ []) m.by_category;
}

group_dishes : List Dish → Menu → Menu
unfolding open_category file_dish
group_dishes [] m = m
group_dishes (d ∷ ds) m = group_dishes ds (file_dish d (open_category d.category m))

menu_of : Restaurant → Menu
unfolding dishes_by_restaurant group_dishes
menu_of r =
    group_dishes (dishes_by_restaurant r.id) (record { category_order = []; by_category = [] })

abbrev section_of : String → Menu → List Dish
section_of c m = get_or (lookup c m.by_category) []

module _ {V : Type 0} where
  lookup_absent :
      (k : String) (m : List (String × V)) → includes (keys m) k ≡ false → lookup k m ≡ none
  lookup_absent k [] h = refl
  lookup_absent k ((j, w) ∷ m) h = ground (arith, lookup_absent k m)

  keys-insert_new :
      (k : String) (v : V) (m : List (String × V))
      → includes (keys m) k ≡ false
      → keys (insert k v m) ≡ keys m ++ k ∷ []
  keys-insert_new k v [] h = refl
  keys-insert_new k v ((j, w) ∷ m) h = ground (arith, keys-insert_new k v m)

  keys-insert_old :
      (k : String) (v : V) (m : List (String × V))
      → includes (keys m) k ≡ true
      → keys (insert k v m) ≡ keys m
  keys-insert_old k v [] h = ground arith
  keys-insert_old k v ((j, w) ∷ m) h = ground (arith, keys-insert_old k v m)

  includes-insert :
      (k : String) (v : V) (m : List (String × V)) → includes (keys (insert k v m)) k ≡ true
  includes-insert k v m = ground (arith, includes-keys-insert k k v m, eq_iff k k)

section_of-insert :
    (d : Dish) (c : String) (m : List (String × List Dish))
    → get_or (lookup c (insert d.category (get_or (lookup d.category m) [] ++ d ∷ []) m)) []
      ≡ get_or (lookup c m) [] ++ filter (λ x. str_eq x.category c) (d ∷ [])
section_of-insert d c m = elim (Bool-cases (str_eq d.category c)) [
  | inl same ↦
      rw (lookup-insert d.category c (get_or (lookup d.category m) [] ++ d ∷ []) m)
        (rw same (rw ((eq_iff d.category c).0 same) refl))
  | inr other ↦
      rw (lookup-insert d.category c (get_or (lookup d.category m) [] ++ d ∷ []) m)
        (rw other (sym (append-nil _)))
]

section_of-open_category :
    (k c : String) (m : Menu) → section_of c (open_category k m) ≡ section_of c m
unfolding open_category
section_of-open_category k c m = elim (Bool-cases (includes (keys m.by_category) k)) [
  | inl old ↦ rw old refl
  | inr new ↦ rw new (
      ground (
        arith,
        lookup-insert k c [] m.by_category,
        lookup_absent c m.by_category,
        eq_iff k c,
        lookup_absent k m.by_category new,
      ))
]

filter-cons :
    (d : Dish) (c : String) (ds l : List Dish)
    → (l ++ filter (λ x. str_eq x.category c) (d ∷ [])) ++ filter (λ x. str_eq x.category c) ds
      ≡ l ++ filter (λ x. str_eq x.category c) (d ∷ ds)
filter-cons d c ds l = elim (Bool-cases (str_eq d.category c)) [
  | inl same ↦ rw same (append_assoc l (d ∷ []) (filter (λ x. str_eq x.category c) ds))
  | inr other ↦
      rw other (ap (λ (k : List Dish). k ++ filter (λ x. str_eq x.category c) ds) (append-nil l))
]

-- The section of a category holds what it held, then exactly the dishes of that category, in the order
-- of the menu.
section_of-group_dishes :
    (c : String) (ds : List Dish) (m : Menu)
    → section_of c (group_dishes ds m) ≡ section_of c m ++ filter (λ x. str_eq x.category c) ds
unfolding group_dishes file_dish
section_of-group_dishes c [] m = sym (append-nil _)
section_of-group_dishes c (d ∷ ds) m =
    section_of-group_dishes c ds _
    ∙ ap (λ (l : List Dish). l ++ filter (λ x. str_eq x.category c) ds)
        (section_of-insert d c (open_category d.category m).by_category
          ∙ ap (λ (l : List Dish). l ++ filter (λ x. str_eq x.category c) (d ∷ []))
              (section_of-open_category d.category c m))
    ∙ filter-cons d c ds (section_of c m)

record IsMenu (m : Menu) : Type 0 where
  ordered : m.category_order ≡ keys m.by_category
  distinct : no_repeats (keys m.by_category) ≡ true

open_category-IsMenu : (c : String) (m : Menu) → IsMenu m → IsMenu (open_category c m)
unfolding open_category
open_category-IsMenu c m h = elim (Bool-cases (includes (keys m.by_category) c)) [
  | inl old ↦ rw old h
  | inr new ↦ rw new (record {
    ordered =
        ap (λ (l : List String). l ++ c ∷ []) h.ordered
        ∙ sym (keys-insert_new c [] m.by_category new);
    distinct = no_repeats-insert c [] m.by_category h.distinct;
  })
]

open_category-includes :
    (c : String) (m : Menu) → includes (keys (open_category c m).by_category) c ≡ true
unfolding open_category
open_category-includes c m = elim (Bool-cases (includes (keys m.by_category) c)) [
  | inl old ↦ rw old old
  | inr new ↦ rw new (includes-insert c [] m.by_category)
]

file_dish-IsMenu :
    (d : Dish) (m : Menu)
    → includes (keys m.by_category) d.category ≡ true
    → IsMenu m
    → IsMenu (file_dish d m)
unfolding file_dish
file_dish-IsMenu d m i h = record {
  ordered = h.ordered ∙ sym (keys-insert_old d.category _ m.by_category i);
  distinct = no_repeats-insert d.category _ m.by_category h.distinct;
}

-- The list of the categories is that of the sections, in the same order and none of them twice.
group_dishes-IsMenu : (ds : List Dish) (m : Menu) → IsMenu m → IsMenu (group_dishes ds m)
unfolding group_dishes
group_dishes-IsMenu [] m h = h
group_dishes-IsMenu (d ∷ ds) m h = group_dishes-IsMenu ds _ (
    file_dish-IsMenu d (open_category d.category m) (open_category-includes d.category m)
      (open_category-IsMenu d.category m h))
