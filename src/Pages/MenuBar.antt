-- ===== src/Pages/MenuBar.antt =====
-- The bar of a restaurant's menu, customer-web/src/app/restaurants/[slug]/sticky-menu-bar.tsx: the
-- chip that is highlighted, moved by the scroll position and by a press. The elements of the page are
-- those whose ids are in `present`; the comparison of two entries by their `top` is the runtime's.
mod Tests
use mathlib.Core.List.{Permᴰ}
use dinner_rush.Prelude.{
  ℕ, String, Bool, true, false, ◌&&◌, Option, none, some, List, [], ◌∷◌, map, if◌then◌else◌, str_eq,
  filter, All, All-mono, Occurs, ◌⊎◌, ◌∙◌, All-filter, All-filter_self, ◌≡◌, refl, sym, subst,
  arith, ltb, Bool-cases, inl, inr,
}
use dinner_rush.Prelude.Maps.{includes}
use dinner_rush.Prelude.Sort.{
  IsOrder, AllAfter, sort, sort-Permᴰ, sort-IsSorted, IsSorted, All-Permᴰ, Permᴰ_sym,
}

record Category : Type 0 where
  id : String
  label : String

record Entry : Type 0 where
  target : String
  is_intersecting : Bool
  top : ℕ

record Bar : Type 0 where
  categories : List Category
  present : List String
  active : String

abbrev first_id : List Category → String
first_id [] = ""
first_id (c ∷ cs) = c.id

-- The first render: `categories[0]?.id ?? ""`.
start : List Category → List String → Bar
start categories present = record {
  categories = categories;
  present = present;
  active = first_id categories;
}

abbrev shown : List Entry → List Entry
shown entries = filter (λ e. e.is_intersecting) entries

module _ (not_after : Entry → Entry → Bool) where
  abbrev visible : List Entry → List Entry
  visible entries = sort not_after (shown entries)

  abbrev activate : List Entry → Bar → Bar
  activate [] b = b
  activate (e ∷ es) b = record b { active = e.target }

  -- The observer's callback.
  observe : List Entry → Bar → Bar
  observe entries b = activate (visible entries) b

  handle_jump : String → Bar → Bar
  handle_jump id b = if includes b.present id then record b { active = id } else b

  -- `aria-current` of the chips.
  abbrev chips : Bar → List (String × Bool)
  chips b = map (λ (c : Category). (c.label, str_eq b.active c.id)) b.categories

  data Event : Type 0 where
    scrolled : List Entry → Event
    pressed : Category → Event

  run_event : Event → Bar → Bar
  unfolding observe handle_jump
  run_event (scrolled entries) b = observe entries b
  run_event (pressed c) b = handle_jump c.id b

  run_events : List Event → Bar → Bar
  unfolding run_event
  run_events [] b = b
  run_events (e ∷ es) b = run_events es (run_event e b)

  abbrev ids : Bar → List String
  ids b = map (λ (c : Category). c.id) b.categories

  -- The observer watches the sections of the categories, and the chips are those of the categories.
  IsOwn : Bar → Event → Type 0
  IsOwn b (scrolled entries) = All (λ (e : Entry). includes (ids b) e.target ≡ true) entries
  IsOwn b (pressed c) = includes (ids b) c.id ≡ true

  activate-active :
      (es : List Entry) (b : Bar)
      → All (λ (e : Entry). includes (ids b) e.target ≡ true) es
      → includes (ids b) b.active ≡ true
      → includes (ids b) (activate es b).active ≡ true
  activate-active [] b h a = a
  activate-active (e ∷ es) b (h, hs) a = h

  activate-categories : (es : List Entry) (b : Bar) → (activate es b).categories ≡ b.categories
  activate-categories [] b = refl
  activate-categories (e ∷ es) b = refl

  run_event-categories : (e : Event) (b : Bar) → (run_event e b).categories ≡ b.categories
  unfolding run_event observe handle_jump
  run_event-categories (scrolled entries) b = activate-categories (visible entries) b
  run_event-categories (pressed c) b = ground arith

  sorted_own :
      (b : Bar) (entries : List Entry)
      → All (λ (e : Entry). includes (ids b) e.target ≡ true) entries
      → All (λ (e : Entry). includes (ids b) e.target ≡ true) (visible entries)
  sorted_own b entries h =
      let P : Entry → Type 0 = λ e. includes (ids b) e.target ≡ true in
      All-Permᴰ P (Permᴰ_sym (sort-Permᴰ not_after (shown entries)))
        (All-filter P (λ e. e.is_intersecting) entries h)

  run_event-active :
      (e : Event) (b : Bar)
      → IsOwn b e
      → includes (ids b) b.active ≡ true
      → includes (ids b) (run_event e b).active ≡ true
  unfolding run_event observe handle_jump IsOwn
  run_event-active (scrolled entries) b own a =
      activate-active (visible entries) b (sorted_own b entries own) a
  run_event-active (pressed c) b own a = ground (arith, own, a)

  AllAfter-All :
      (e : Entry) (es : List Entry)
      → AllAfter not_after e es
      → All (λ (x : Entry). not_after e x ≡ true) es
  AllAfter-All e [] h = tt
  AllAfter-All e (x ∷ es) (h, hs) = (h, AllAfter-All e es hs)

  AreOwn : Bar → List Event → Type 0
  AreOwn b es = All (IsOwn b) es

  IsOwn-after : (b c : Bar) (e : Event) → c.categories ≡ b.categories → IsOwn b e → IsOwn c e
  unfolding IsOwn
  IsOwn-after b c (scrolled entries) same h =
      subst
        (λ (cs : List Category).
          All (λ (e : Entry). includes (map (λ (c : Category). c.id) cs) e.target ≡ true) entries)
        (sym same) h
  IsOwn-after b c (pressed k) same h =
      subst (λ (cs : List Category). includes (map (λ (c : Category). c.id) cs) k.id ≡ true)
        (sym same) h

  -- Whatever the scrolling and the presses, the chip that is highlighted is that of a category, where
  -- it was one at first; and the categories stay as they are.
  run_events-active :
      (es : List Event) (b : Bar)
      → AreOwn b es
      → includes (ids b) b.active ≡ true
      → (includes (ids (run_events es b)) (run_events es b).active ≡ true)
        × ((run_events es b).categories ≡ b.categories)
  unfolding run_events AreOwn
  run_events-active [] b own a = (a, refl)
  run_events-active (e ∷ es) b (own, owns) a =
      let c = run_event e b in
      let same : c.categories ≡ b.categories = run_event-categories e b in
      let (active, kept) =
        run_events-active es c
          (All-mono (IsOwn b) (IsOwn c) (λ e h. IsOwn-after b c e same h) es owns)
          (subst
            (λ (cs : List Category). includes (map (λ (c : Category). c.id) cs) c.active ≡ true)
            (sym same) (run_event-active e b own a)) in
      (active, kept ∙ same)

  nothing_left : (es : List Entry) → All (λ (x : Entry). ⊥) es → es ≡ []
  nothing_left [] h = refl
  nothing_left (e ∷ es) (h, hs) = elim h [ ]

  -- The entry that is highlighted, if any: its section is in view, and none in view is above it.
  abbrev IsTopmost : List Entry → Bar → Bar → Type 0
  IsTopmost es b c =
      ((es ≡ []) × (c ≡ b))
      ⊎ ((e : Entry) × (c ≡ record b { active = e.target })
          × (e.is_intersecting ≡ true)
          × All (λ (x : Entry). not_after e x ≡ true) es)

  activate-IsTopmost :
      (es ss : List Entry) (b : Bar)
      → IsOrder not_after
      → Permᴰ ss es
      → IsSorted not_after ss
      → All (λ (x : Entry). x.is_intersecting ≡ true) ss
      → IsTopmost es b (activate ss b)
  activate-IsTopmost es [] b o perm s v =
      inl (nothing_left es (All-Permᴰ (λ (x : Entry). ⊥) perm tt), refl)
  activate-IsTopmost es (e ∷ ss) b o perm (s, _) (v, _) =
      let itself : not_after e e ≡ true = ground (arith, o.total e e) in
      inr (
        e,
        refl,
        v,
        All-Permᴰ (λ (x : Entry). not_after e x ≡ true) perm (itself, AllAfter-All e ss s),
      )

  -- The observer's callback highlights the section that is in view with none in view above it, and
  -- changes nothing when none is in view.
  observe-IsTopmost :
      (entries : List Entry) (b : Bar)
      → IsOrder not_after
      → IsTopmost (shown entries) b (observe entries b)
  unfolding observe
  observe-IsTopmost entries b o =
      let perm = sort-Permᴰ not_after (shown entries) in
      activate-IsTopmost (shown entries) (visible entries) b o perm
        (sort-IsSorted not_after o (shown entries))
        (All-Permᴰ (λ (x : Entry). x.is_intersecting ≡ true) (Permᴰ_sym perm)
          (All-filter_self (λ (e : Entry). e.is_intersecting) entries))
