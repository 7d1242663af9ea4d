-- ===== src/Pages/MenuBar/Tests.antt =====
-- A menu of two categories, scrolled and pressed.
use dinner_rush.Prelude.{Bool, true, false, leb, [], ◌∷◌, ◌≡◌, refl}
use dinner_rush.Pages.MenuBar.{
  Category, Entry, Bar, start, run_event, run_events, observe, handle_jump, scrolled, pressed,
  chips,
}

abbrev mains : Category
mains = record { id = "menu-mains"; label = "Mains" }

abbrev sides : Category
sides = record { id = "menu-sides"; label = "Sides" }

abbrev above : Entry → Entry → Bool
above a b = leb a.top b.top

abbrev menu : Bar
menu = start (mains ∷ sides ∷ []) ("menu-mains" ∷ "menu-sides" ∷ [])

highlights :
    ((run_events above (pressed sides ∷ []) menu).active ≡ "menu-sides")
    × ((run_events above
          (pressed sides
            ∷ scrolled (record { target = "menu-mains"; is_intersecting = true; top = 9 } ∷ [])
            ∷ [])
          menu).active
        ≡ "menu-mains")
    × (chips above menu ≡ ("Mains", true) ∷ ("Sides", false) ∷ [])
unfolding run_events run_event observe handle_jump start
highlights = (refl, refl, refl)
