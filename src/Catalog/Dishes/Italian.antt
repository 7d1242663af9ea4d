-- ===== src/Catalog/Dishes/Italian.antt =====
-- Dishes of the Italian kitchens, from customer-web/src/lib/data.ts.
use dinner_rush.Prelude.{none, some, true, List, [], ◌∷◌}
use dinner_rush.Types.{Dish, italian, vegetarian, gluten_free}
use dinner_rush.Catalog.Image.{image_url}

abbrev pub nonna_dishes : List Dish
nonna_dishes =
    record {
      id = "nonna-1";
      restaurant_id = "nonna";
      name = "Rigatoni alla Vodka";
      description =
          "Creamy tomato-vodka sauce, fresh basil, shaved parmesan — baked in a family tray.";
      price = 78;
      serves_min = 8;
      serves_max = 10;
      image = (image_url "1606787366850-de6330128bfc" "900");
      cuisine = italian;
      dietary = vegetarian ∷ [];
      popular = some true;
      is_new = none;
      category = "Pasta";
    }
    ∷ record {
      id = "nonna-2";
      restaurant_id = "nonna";
      name = "Chicken Parmigiana Tray";
      description = "Golden breaded cutlets, San Marzano marinara, melted mozzarella.";
      price = 96;
      serves_min = 8;
      serves_max = 10;
      image = (image_url "1555949258-eb67b1ef0ceb" "900");
      cuisine = italian;
      dietary = [];
      popular = none;
      is_new = none;
      category = "Mains";
    }
    ∷ record {
      id = "nonna-3";
      restaurant_id = "nonna";
      name = "Burrata & Caprese Platter";
      description = "Creamy burrata, heirloom tomatoes, basil, aged balsamic.";
      price = 64;
      serves_min = 10;
      serves_max = 12;
      image = (image_url "1540189549336-e6e99c3679fe" "900");
      cuisine = italian;
      dietary = vegetarian ∷ gluten_free ∷ [];
      popular = none;
      is_new = none;
      category = "Starters";
    }
    ∷ record {
      id = "nonna-4";
      restaurant_id = "nonna";
      name = "Tiramisu Cups (24)";
      description = "Espresso-soaked ladyfingers, mascarpone, cocoa dust. Individually portioned.";
      price = 72;
      serves_min = 20;
      serves_max = 24;
      image = (image_url "1559054663-e8d23213f55c" "900");
      cuisine = italian;
      dietary = vegetarian ∷ [];
      popular = none;
      is_new = none;
      category = "Dessert";
    }
    ∷ []

abbrev pub slice_dishes : List Dish
slice_dishes =
    record {
      id = "slice-1";
      restaurant_id = "slice";
      name = "Margherita Party Box";
      description = "Three 18\" wood-fired pies, San Marzano, fresh mozzarella, basil.";
      price = 84;
      serves_min = 10;
      serves_max = 14;
      image = (image_url "1513104890138-7c749659a591" "900");
      cuisine = italian;
      dietary = vegetarian ∷ [];
      popular = some true;
      is_new = none;
      category = "Pizza";
    }
    ∷ record {
      id = "slice-2";
      restaurant_id = "slice";
      name = "Pepperoni Crowd Pies";
      description = "Three loaded pepperoni pies with hot honey on the side.";
      price = 90;
      serves_min = 10;
      serves_max = 14;
      image = (image_url "1565299624946-b28f40a0ae38" "900");
      cuisine = italian;
      dietary = [];
      popular = none;
      is_new = none;
      category = "Pizza";
    }
    ∷ record {
      id = "slice-3";
      restaurant_id = "slice";
      name = "Garden Antipasto Salad";
      description = "Crisp romaine, salami, provolone, pepperoncini, red-wine vinaigrette.";
      price = 52;
      serves_min = 10;
      serves_max = 12;
      image = (image_url "1565958011703-44f9829ba187" "900");
      cuisine = italian;
      dietary = [];
      popular = none;
      is_new = none;
      category = "Salad";
    }
    ∷ record {
      id = "slice-4";
      restaurant_id = "slice";
      name = "Garlic Knot Mountain";
      description = "Two dozen buttery garlic knots with warm marinara.";
      price = 34;
      serves_min = 12;
      serves_max = 16;
      image = (image_url "1574071318508-1cdbab80d002" "900");
      cuisine = italian;
      dietary = vegetarian ∷ [];
      popular = none;
      is_new = some true;
      category = "Sides";
    }
    ∷ []
