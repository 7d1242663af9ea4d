-- ===== src/Catalog/Dishes/AsianMexican.antt =====
-- Dishes of the Mexican and Asian kitchens, from customer-web/src/lib/data.ts.
use dinner_rush.Prelude.{none, some, true, List, [], ◌∷◌}
use dinner_rush.Types.{Dish, mexican, asian, gluten_free, vegetarian, vegan, spicy}
use dinner_rush.Catalog.Image.{image_url}

abbrev pub fuego_dishes : List Dish
fuego_dishes =
    record {
      id = "fuego-1";
      restaurant_id = "fuego";
      name = "Build-Your-Own Taco Bar";
      description =
          "Carne asada, al pastor & grilled veggies with all the fixings and warm tortillas.";
      price = 128;
      serves_min = 12;
      serves_max = 15;
      image = (image_url "1565557623262-b51c2513a641" "900");
      cuisine = mexican;
      dietary = gluten_free ∷ [];
      popular = some true;
      is_new = none;
      category = "Mains";
    }
    ∷ record {
      id = "fuego-2";
      restaurant_id = "fuego";
      name = "Carne Asada Burrito Box";
      description = "Ten foil-wrapped burritos: marinated steak, rice, beans, salsa verde.";
      price = 98;
      serves_min = 10;
      serves_max = 10;
      image = (image_url "1599974579688-8dbdd335c77f" "900");
      cuisine = mexican;
      dietary = [];
      popular = none;
      is_new = none;
      category = "Mains";
    }
    ∷ record {
      id = "fuego-3";
      restaurant_id = "fuego";
      name = "Loaded Nacho Tray";
      description = "Crispy chips, queso, black beans, pico, jalapeños, crema.";
      price = 56;
      serves_min = 10;
      serves_max = 12;
      image = (image_url "1551504734-5ee1c4a1479b" "900");
      cuisine = mexican;
      dietary = vegetarian ∷ [];
      popular = none;
      is_new = some true;
      category = "Sides";
    }
    ∷ record {
      id = "fuego-4";
      restaurant_id = "fuego";
      name = "Chips, Guac & Salsa Trio";
      description = "House guac, roasted salsa, mango salsa & a mountain of warm chips.";
      price = 38;
      serves_min = 12;
      serves_max = 16;
      image = (image_url "1467003909585-2f8a72700288" "900");
      cuisine = mexican;
      dietary = vegan ∷ gluten_free ∷ [];
      popular = none;
      is_new = none;
      category = "Sides";
    }
    ∷ []

abbrev pub sakura_dishes : List Dish
sakura_dishes =
    record {
      id = "sakura-1";
      restaurant_id = "sakura";
      name = "Tonkotsu Ramen Kit";
      description = "Rich pork broth, fresh noodles, chashu & toppings — assemble at the table.";
      price = 132;
      serves_min = 8;
      serves_max = 10;
      image = (image_url "1551183053-bf91a1d81141" "900");
      cuisine = asian;
      dietary = [];
      popular = some true;
      is_new = none;
      category = "Ramen";
    }
    ∷ record {
      id = "sakura-2";
      restaurant_id = "sakura";
      name = "Shoyu Ramen Kit";
      description = "Soy-based chicken broth, soft egg, scallion, bamboo shoots.";
      price = 124;
      serves_min = 8;
      serves_max = 10;
      image = (image_url "1569718212165-3a8278d5f624" "900");
      cuisine = asian;
      dietary = [];
      popular = none;
      is_new = none;
      category = "Ramen";
    }
    ∷ record {
      id = "sakura-3";
      restaurant_id = "sakura";
      name = "Gyoza Dumpling Platter";
      description = "Forty pan-fried pork & vegetable dumplings with ponzu dip.";
      price = 60;
      serves_min = 10;
      serves_max = 12;
      image = (image_url "1432139555190-58524dae6a55" "900");
      cuisine = asian;
      dietary = [];
      popular = none;
      is_new = none;
      category = "Starters";
    }
    ∷ record {
      id = "sakura-4";
      restaurant_id = "sakura";
      name = "Edamame & Seaweed Salad";
      description = "Sea-salt edamame and sesame seaweed salad — light and bright.";
      price = 36;
      serves_min = 10;
      serves_max = 12;
      image = (image_url "1490645935967-10de6ba17061" "900");
      cuisine = asian;
      dietary = vegan ∷ gluten_free ∷ [];
      popular = none;
      is_new = none;
      category = "Sides";
    }
    ∷ []

abbrev pub dragon_dishes : List Dish
dragon_dishes =
    record {
      id = "dragon-1";
      restaurant_id = "dragon";
      name = "Dragon Roll Sushi Boat";
      description = "Chef's selection of 64 pieces: dragon, rainbow, spicy tuna & veggie rolls.";
      price = 168;
      serves_min = 10;
      serves_max = 14;
      image = (image_url "1579584425555-c3ce17fd4351" "900");
      cuisine = asian;
      dietary = [];
      popular = some true;
      is_new = none;
      category = "Sushi";
    }
    ∷ record {
      id = "dragon-2";
      restaurant_id = "dragon";
      name = "Rainbow Sashimi Platter";
      description = "Premium salmon, tuna & yellowtail over crushed ice.";
      price = 142;
      serves_min = 8;
      serves_max = 10;
      image = (image_url "1611143669185-af224c5e3252" "900");
      cuisine = asian;
      dietary = gluten_free ∷ [];
      popular = none;
      is_new = none;
      category = "Sushi";
    }
    ∷ record {
      id = "dragon-3";
      restaurant_id = "dragon";
      name = "Kung Pao Chicken Tray";
      description = "Wok-tossed chicken, peanuts, dried chili, bell peppers.";
      price = 74;
      serves_min = 8;
      serves_max = 10;
      image = (image_url "1559339352-11d035aa65de" "900");
      cuisine = asian;
      dietary = spicy ∷ [];
      popular = none;
      is_new = none;
      category = "Mains";
    }
    ∷ record {
      id = "dragon-4";
      restaurant_id = "dragon";
      name = "Veggie Fried Rice Tub";
      description = "Wok rice with egg, peas, carrot & scallion. A reliable crowd base.";
      price = 48;
      serves_min = 12;
      serves_max = 14;
      image = (image_url "1482049016688-2d3e1b311543" "900");
      cuisine = asian;
      dietary = vegetarian ∷ [];
      popular = none;
      is_new = none;
      category = "Sides";
    }
    ∷ []
