-- ===== src/Pages/Browser/Filter.antt =====
-- What the filters of the browser let through, stated without their code.
use dinner_rush.Prelude.{
  ℕ, String, Bool, true, ◌&&◌, ◌||◌, List, [], ◌∷◌, ◌++◌, all, any, filter, str_eq, eq_iff, ◌≡◌,
  refl, ap, sym, ◌∙◌, subst, ◌⊎◌, inl, inr, ◌↔◌, arith, Occurs, Bool-cases, if◌then◌else◌,
}
use dinner_rush.Prelude.Text.{trim, codes, ◌+s◌}
use dinner_rush.Types.{Restaurant, Dish, DietaryTag, cuisine_name}
use dinner_rush.Catalog.{dishes_by_restaurant}
use dinner_rush.Catalog.Dishes.{dishes}
use dinner_rush.Pages.Browser.{
  Controls, tag_name, has_tag, is_prefix, is_within, contains_text, cuisine_label, searched_text,
  is_result,
}

-- The codes stand in the other ones, side by side.
pub record IsPart (q hay : List ℕ) : Type 0 where
  pub before : List ℕ
  pub after : List ℕ
  pub parts : hay ≡ before ++ (q ++ after)

-- The name, the tagline, the cuisine's label and the neighborhood, with spaces between.
abbrev pub described : Restaurant → String
described r = r.name +s " " +s r.tagline +s " " +s cuisine_label r.cuisine +s " " +s r.neighborhood

-- The restaurant has the cuisine that is chosen, if one is; the query, trimmed and in small letters, is
-- empty or stands in what describes it; and for each diet that is chosen it has a dish with it.
pub record Meets (to_lower : String → String) (c : Controls) (r : Restaurant) : Type 0 where
  pub cuisine : (c.cuisine ≡ "all") ⊎ (cuisine_name r.cuisine ≡ c.cuisine)
  pub query :
      let q = to_lower (trim c.query) in
      (q ≡ "") ⊎ IsPart (codes q) (codes (to_lower (described r)))
  pub diets :
      (d : DietaryTag)
      → Occurs d c.diets
      → (dish : Dish) × Occurs dish dishes × (dish.restaurant_id ≡ r.id) × Occurs d dish.dietary

tag_of : String → DietaryTag
tag_of s =
    if str_eq s "vegetarian"
    then DietaryTag.vegetarian
    else if str_eq s "vegan"
    then DietaryTag.vegan
    else if str_eq s "gluten-free"
    then DietaryTag.gluten_free
    else if str_eq s "spicy"
    then DietaryTag.spicy
    else DietaryTag.dairy_free

tag_of-tag_name : (d : DietaryTag) → tag_of (tag_name d) ≡ d
unfolding tag_of
tag_of-tag_name DietaryTag.vegetarian = refl
tag_of-tag_name DietaryTag.vegan = refl
tag_of-tag_name DietaryTag.gluten_free = refl
tag_of-tag_name DietaryTag.spicy = refl
tag_of-tag_name DietaryTag.dairy_free = refl

tag_name_injective : (d e : DietaryTag) → tag_name d ≡ tag_name e → d ≡ e
tag_name_injective d e h = sym (tag_of-tag_name d) ∙ ap tag_of h ∙ tag_of-tag_name e

-- A list has an element that passes a test exactly when the test of the list passes.
module _ {A : Type 0} (p : A → Bool) where
  any_sound : (xs : List A) → any p xs ≡ true → (x : A) × Occurs x xs × (p x ≡ true)
  any_sound [] h = absurd (cc)
  any_sound (x ∷ xs) h = elim (Bool-cases (p x)) [
    | inl yes_here ↦ (x, inl refl, yes_here)
    | inr later ↦ let (y, o, k) = any_sound xs (ground (arith, h, later)) in (y, inr o, k)
  ]

  any_complete : (xs : List A) (x : A) → Occurs x xs → p x ≡ true → any p xs ≡ true
  any_complete [] x o k = elim o [ ]
  any_complete (y ∷ xs) x (inl e) k = let here = subst (λ z. p z ≡ true) e k in ground (arith, here)
  any_complete (y ∷ xs) x (inr o) k = ground (arith, any_complete xs x o k)

  all_complete : (xs : List A) → ((x : A) → Occurs x xs → p x ≡ true) → all p xs ≡ true
  all_complete [] h = refl
  all_complete (x ∷ xs) h =
      let here = h x (inl refl) in
      let rest = all_complete xs (λ y o. h y (inr o)) in ground (arith, here, rest)

  all_at : (xs : List A) (x : A) → Occurs x xs → all p xs ≡ true → p x ≡ true
  all_at [] x o h = elim o [ ]
  all_at (y ∷ xs) x (inl e) h = subst (λ z. p z ≡ true) (sym e) (ground (arith, h))
  all_at (y ∷ xs) x (inr o) h = all_at xs x o (ground (arith, h))

  pub Occurs-filtered :
      (xs : List A) (x : A) → Occurs x (filter p xs) ↔ (Occurs x xs × (p x ≡ true))
  Occurs-filtered [] x = (λ o. elim o [ ], λ h. h.0)
  Occurs-filtered (y ∷ xs) x =
      let (only, also) = Occurs-filtered xs x in
      elim (Bool-cases (p y)) [
        | inl kept ↦ rw kept (
          (λ o. elim o [
            | inl e ↦ (inl e, subst (λ z. p z ≡ true) (sym e) kept)
            | inr later ↦ let (there, k) = only later in (inr there, k)
          ]),
          (λ h. elim h.0 [ inl e ↦ inl e | inr later ↦ inr (also (later, h.1)) ]),
        )
        | inr cut ↦ rw cut (
          (λ o. let (there, k) = only o in (inr there, k)),
          (λ h. elim h.0 [
            | inl e ↦ absurd (cc (subst (λ z. p z ≡ true) e h.1, cut))
            | inr later ↦ also (later, h.1)
          ]),
        )
      ]

is_prefix_sound : (q ys : List ℕ) → is_prefix q ys ≡ true → (after : List ℕ) × (ys ≡ q ++ after)
is_prefix_sound [] ys h = (ys, refl)
is_prefix_sound (x ∷ q) [] h = absurd (cc)
is_prefix_sound (x ∷ q) (y ∷ ys) h =
    let same : x ≡ y = ground (arith, h) in
    let (after, e) = is_prefix_sound q ys (ground (arith, h)) in
    (after, ap (λ z. z ∷ ys) (sym same) ∙ ap (◌∷◌ x) e)

is_prefix_complete : (q after : List ℕ) → is_prefix q (q ++ after) ≡ true
is_prefix_complete [] after = refl
is_prefix_complete (x ∷ q) after = ground (arith, is_prefix_complete q after)

is_within_sound : (q hay : List ℕ) → is_within q hay ≡ true → IsPart q hay
is_within_sound q [] h =
    let (after, e) = is_prefix_sound q [] h in record { before = []; after = after; parts = e }
is_within_sound q (y ∷ hay) h = elim (Bool-cases (is_prefix q (y ∷ hay))) [
  | inl starts ↦
      let (after, e) = is_prefix_sound q (y ∷ hay) starts in
      record { before = []; after = after; parts = e }
  | inr later ↦
      let rest = is_within_sound q hay (ground (arith, h, later)) in
      record { before = y ∷ rest.before; after = rest.after; parts = ap (◌∷◌ y) rest.parts }
]

is_prefix-is_within : (q ys : List ℕ) → is_prefix q ys ≡ true → is_within q ys ≡ true
is_prefix-is_within q [] h = h
is_prefix-is_within q (y ∷ ys) h = ground (arith, h)

is_within_complete : (q before after : List ℕ) → is_within q (before ++ (q ++ after)) ≡ true
is_within_complete q [] after = is_prefix-is_within q (q ++ after) (is_prefix_complete q after)
is_within_complete q (x ∷ before) after = ground (arith, is_within_complete q before after)

has_tag_sound : (tags : List DietaryTag) (d : DietaryTag) → has_tag tags d ≡ true → Occurs d tags
unfolding has_tag
has_tag_sound tags d h =
    let (t, o, e) = any_sound (λ t. str_eq (tag_name t) (tag_name d)) tags h in
    subst (λ t. Occurs t tags) (tag_name_injective t d ((eq_iff (tag_name t) (tag_name d)).0 e)) o

has_tag_complete : (tags : List DietaryTag) (d : DietaryTag) → Occurs d tags → has_tag tags d ≡ true
unfolding has_tag
has_tag_complete tags d o =
    any_complete (λ t. str_eq (tag_name t) (tag_name d)) tags d o
      ((eq_iff (tag_name d) (tag_name d)).1 refl)

or_left : (a b : Bool) → a ≡ true → (a || b) ≡ true
or_left a b h = ground (arith, h)

or_right : (a b : Bool) → b ≡ true → (a || b) ≡ true
or_right a b h = ground (arith, h)

and_three : (a b d : Bool) → a ≡ true → b ≡ true → d ≡ true → (a && b && d) ≡ true
and_three a b d h k l = ground (arith, h, k, l)

-- The test of the filters passes exactly the restaurants that meet them.
pub is_result-Meets :
    (to_lower : String → String) (c : Controls) (r : Restaurant)
    → (is_result to_lower c r ≡ true) ↔ Meets to_lower c r
unfolding is_result contains_text searched_text dishes_by_restaurant
is_result-Meets to_lower c r =
    let q : String = to_lower (trim c.query) in
    let text : String = to_lower (searched_text r) in
    let suits : DietaryTag → Dish → Bool = λ d dish. has_tag dish.dietary d in
    let own : Dish → Bool = λ dish. str_eq dish.restaurant_id r.id in
    let offers : DietaryTag → Bool = λ d. any (suits d) (filter own dishes) in
    (
      (λ h. record {
        cuisine = elim (Bool-cases (str_eq c.cuisine "all")) [
          | inl e ↦ inl ((eq_iff c.cuisine "all").0 e)
          | inr n ↦ inr ((eq_iff (cuisine_name r.cuisine) c.cuisine).0 (ground (arith, h, n)))
        ];
        query = elim (Bool-cases (str_eq q "")) [
          | inl e ↦ inl ((eq_iff q "").0 e)
          | inr n ↦ inr (is_within_sound (codes q) (codes text) (ground (arith, h, n)))
        ];
        diets = λ d o.
            let (dish, listed, tagged) =
              any_sound (suits d) (filter own dishes)
                (all_at offers c.diets d o (ground (arith, h))) in
            let (there, same) = (Occurs-filtered own dishes dish).0 listed in
            (
              dish,
              there,
              (eq_iff dish.restaurant_id r.id).0 same,
              has_tag_sound dish.dietary d tagged,
            );
      }),
      (λ m.
          let diets = all_complete offers c.diets (λ d o.
            let (dish, there, same, tagged) = m.diets d o in
            any_complete (suits d) (filter own dishes) dish
              ((Occurs-filtered own dishes dish).1 (there, (eq_iff dish.restaurant_id r.id).1 same))
              (has_tag_complete dish.dietary d tagged)) in
          let cuisine : (str_eq c.cuisine "all" || str_eq (cuisine_name r.cuisine) c.cuisine)
              ≡ true =
            elim m.cuisine [
              | inl e ↦ or_left (str_eq c.cuisine "all") _ ((eq_iff c.cuisine "all").1 e)
              | inr e ↦
                  or_right (str_eq c.cuisine "all") _
                    ((eq_iff (cuisine_name r.cuisine) c.cuisine).1 e)
            ] in
          let query : (str_eq q "" || contains_text text q) ≡ true = elim m.query [
            | inl e ↦ or_left (str_eq q "") _ ((eq_iff q "").1 e)
            | inr p ↦ or_right (str_eq q "") _ (
                subst (λ hay. is_within (codes q) hay ≡ true) (sym p.parts)
                  (is_within_complete (codes q) p.before p.after))
          ] in
          and_three _ _ _ cuisine query diets),
    )
