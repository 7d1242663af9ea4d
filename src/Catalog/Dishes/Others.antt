-- ===== src/Catalog/Dishes/Others.antt =====
-- Dishes of the Mediterranean, Indian and breakfast kitchens, from customer-web/src/lib/data.ts.
use dinner_rush.Prelude.{none, some, true, List, [], ◌∷◌}
use dinner_rush.Types.{
  Dish, mediterranean, indian, breakfast, vegetarian, gluten_free, vegan, spicy,
}
use dinner_rush.Catalog.Image.{image_url}

abbrev pub olive_dishes : List Dish
olive_dishes =
    record {
      id = "olive-1";
      restaurant_id = "olive";
      name = "Mezze Grazing Board";
      description = "Hummus, baba ganoush, olives, dolmas, feta, warm pita & crudité.";
      price = 92;
      serves_min = 12;
      serves_max = 16;
      image = (image_url "1607330289024-1535c6b4e1c1" "900");
      cuisine = mediterranean;
      dietary = vegetarian ∷ [];
      popular = some true;
      is_new = none;
      category = "Starters";
    }
    ∷ record {
      id = "olive-2";
      restaurant_id = "olive";
      name = "Chicken Shawarma Platter";
      description = "Marinated chicken, saffron rice, garlic toum, pickled turnips.";
      price = 104;
      serves_min = 10;
      serves_max = 12;
      image = (image_url "1546793665-c74683f339c1" "900");
      cuisine = mediterranean;
      dietary = gluten_free ∷ [];
      popular = none;
      is_new = none;
      category = "Mains";
    }
    ∷ record {
      id = "olive-3";
      restaurant_id = "olive";
      name = "Falafel & Hummus Box";
      description = "Crispy herb falafel, creamy hummus, tahini & fresh salad.";
      price = 62;
      serves_min = 10;
      serves_max = 12;
      image = (image_url "1432139555190-58524dae6a55" "900");
      cuisine = mediterranean;
      dietary = vegan ∷ [];
      popular = none;
      is_new = none;
      category = "Mains";
    }
    ∷ record {
      id = "olive-4";
      restaurant_id = "olive";
      name = "Greek Village Salad";
      description = "Tomato, cucumber, red onion, kalamata & feta in oregano vinaigrette.";
      price = 50;
      serves_min = 10;
      serves_max = 12;
      image = (image_url "1540189549336-e6e99c3679fe" "900");
      cuisine = mediterranean;
      dietary = vegetarian ∷ gluten_free ∷ [];
      popular = none;
      is_new = none;
      category = "Salad";
    }
    ∷ []

abbrev pub saffron_dishes : List Dish
saffron_dishes =
    record {
      id = "saffron-1";
      restaurant_id = "saffron";
      name = "Butter Chicken Feast";
      description = "Velvety tomato-butter curry with basmati rice & garlic naan.";
      price = 112;
      serves_min = 10;
      serves_max = 12;
      image = (image_url "1601050690597-df0568f70950" "900");
      cuisine = indian;
      dietary = gluten_free ∷ [];
      popular = some true;
      is_new = none;
      category = "Mains";
    }
    ∷ record {
      id = "saffron-2";
      restaurant_id = "saffron";
      name = "Vegetarian Thali Spread";
      description = "Dal makhani, paneer, chana masala, rice, naan & raita.";
      price = 98;
      serves_min = 10;
      serves_max = 12;
      image = (image_url "1631452180519-c014fe946bc7" "900");
      cuisine = indian;
      dietary = vegetarian ∷ [];
      popular = none;
      is_new = none;
      category = "Mains";
    }
    ∷ record {
      id = "saffron-3";
      restaurant_id = "saffron";
      name = "Tandoori Mixed Grill";
      description = "Tandoori chicken, seekh kebab & paneer tikka with mint chutney.";
      price = 124;
      serves_min = 10;
      serves_max = 12;
      image = (image_url "1585937421612-70a008356fbe" "900");
      cuisine = indian;
      dietary = gluten_free ∷ spicy ∷ [];
      popular = none;
      is_new = none;
      category = "Mains";
    }
    ∷ record {
      id = "saffron-4";
      restaurant_id = "saffron";
      name = "Samosa & Chaat Box";
      description = "Two dozen samosas with tamarind & mint chutneys plus papdi chaat.";
      price = 52;
      serves_min = 12;
      serves_max = 14;
      image = (image_url "1601050690597-df0568f70950" "900");
      cuisine = indian;
      dietary = vegetarian ∷ [];
      popular = none;
      is_new = none;
      category = "Starters";
    }
    ∷ []

abbrev pub sunrise_dishes : List Dish
sunrise_dishes =
    record {
      id = "sunrise-1";
      restaurant_id = "sunrise";
      name = "Build-Your-Own Bagel Bar";
      description = "Two dozen bagels, three cream cheeses, lox, tomato, capers & onion.";
      price = 86;
      serves_min = 12;
      serves_max = 16;
      image = (image_url "1525351484163-7529414344d8" "900");
      cuisine = breakfast;
      dietary = vegetarian ∷ [];
      popular = some true;
      is_new = none;
      category = "Breakfast";
    }
    ∷ record {
      id = "sunrise-2";
      restaurant_id = "sunrise";
      name = "Pancake & Berry Stack";
      description = "Fluffy buttermilk pancakes, maple syrup, whipped butter & berries.";
      price = 64;
      serves_min = 10;
      serves_max = 12;
      image = (image_url "1484980972926-edee96e0960d" "900");
      cuisine = breakfast;
      dietary = vegetarian ∷ [];
      popular = none;
      is_new = none;
      category = "Breakfast";
    }
    ∷ record {
      id = "sunrise-3";
      restaurant_id = "sunrise";
      name = "Avocado Toast Flight";
      description = "Sourdough toasts with smashed avo, chili crisp, radish & feta.";
      price = 58;
      serves_min = 8;
      serves_max = 10;
      image = (image_url "1517248135467-4c7edcad34c4" "900");
      cuisine = breakfast;
      dietary = vegetarian ∷ [];
      popular = none;
      is_new = some true;
      category = "Breakfast";
    }
    ∷ record {
      id = "sunrise-4";
      restaurant_id = "sunrise";
      name = "Fruit & Yogurt Parfaits (16)";
      description = "Greek yogurt, granola & seasonal fruit in grab-and-go cups.";
      price = 56;
      serves_min = 14;
      serves_max = 16;
      image = (image_url "1414235077428-338989a2e8c0" "900");
      cuisine = breakfast;
      dietary = vegetarian ∷ gluten_free ∷ [];
      popular = none;
      is_new = none;
      category = "Breakfast";
    }
    ∷ []
