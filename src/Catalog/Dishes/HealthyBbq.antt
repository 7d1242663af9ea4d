-- ===== src/Catalog/Dishes/HealthyBbq.antt =====
-- Dishes of the healthy and barbecue kitchens, from customer-web/src/lib/data.ts.
use dinner_rush.Prelude.{none, some, true, List, [], ◌∷◌}
use dinner_rush.Types.{Dish, healthy, bbq, gluten_free, vegetarian, vegan}
use dinner_rush.Catalog.Image.{image_url}

abbrev pub verde_dishes : List Dish
verde_dishes =
    record {
      id = "verde-1";
      restaurant_id = "verde";
      name = "Harvest Grain Bowl Bar";
      description =
          "Quinoa, farro, roasted veg, three proteins & six dressings — fully build-your-own.";
      price = 118;
      serves_min = 10;
      serves_max = 14;
      image = (image_url "1512621776951-a57141f2eefd" "900");
      cuisine = healthy;
      dietary = gluten_free ∷ [];
      popular = some true;
      is_new = none;
      category = "Bowls";
    }
    ∷ record {
      id = "verde-2";
      restaurant_id = "verde";
      name = "Citrus Kale Caesar";
      description = "Lacinato kale, shaved parm, sourdough croutons, lemony caesar.";
      price = 54;
      serves_min = 10;
      serves_max = 12;
      image = (image_url "1546069901-ba9599a7e63c" "900");
      cuisine = healthy;
      dietary = vegetarian ∷ [];
      popular = none;
      is_new = none;
      category = "Salad";
    }
    ∷ record {
      id = "verde-3";
      restaurant_id = "verde";
      name = "Rainbow Crudité Box";
      description = "Heirloom carrots, radish, cucumber, snap peas with green-goddess dip.";
      price = 44;
      serves_min = 12;
      serves_max = 16;
      image = (image_url "1493770348161-369560ae357d" "900");
      cuisine = healthy;
      dietary = vegan ∷ gluten_free ∷ [];
      popular = none;
      is_new = none;
      category = "Sides";
    }
    ∷ record {
      id = "verde-4";
      restaurant_id = "verde";
      name = "Açaí & Berry Cups (16)";
      description = "Açaí blend, granola, banana, mixed berries — individually packed.";
      price = 68;
      serves_min = 14;
      serves_max = 16;
      image = (image_url "1484980972926-edee96e0960d" "900");
      cuisine = healthy;
      dietary = vegan ∷ [];
      popular = none;
      is_new = some true;
      category = "Dessert";
    }
    ∷ []

abbrev pub smoke_dishes : List Dish
smoke_dishes =
    record {
      id = "smoke-1";
      restaurant_id = "smoke";
      name = "Brisket & Burnt Ends Tray";
      description = "16-hour smoked brisket and caramelized burnt ends with house BBQ sauce.";
      price = 188;
      serves_min = 10;
      serves_max = 12;
      image = (image_url "1593560708920-61dd98c46a4e" "900");
      cuisine = bbq;
      dietary = gluten_free ∷ [];
      popular = some true;
      is_new = none;
      category = "Mains";
    }
    ∷ record {
      id = "smoke-2";
      restaurant_id = "smoke";
      name = "Pulled Pork Slider Stack";
      description = "Two dozen slow-smoked pulled-pork sliders with slaw and pickles.";
      price = 96;
      serves_min = 12;
      serves_max = 14;
      image = (image_url "1568901346375-23c9450c58cd" "900");
      cuisine = bbq;
      dietary = [];
      popular = none;
      is_new = none;
      category = "Mains";
    }
    ∷ record {
      id = "smoke-3";
      restaurant_id = "smoke";
      name = "Smoked Mac & Cheese";
      description = "Three-cheese mac with a smoky breadcrumb crust.";
      price = 58;
      serves_min = 10;
      serves_max = 14;
      image = (image_url "1504674900247-0877df9cc836" "900");
      cuisine = bbq;
      dietary = vegetarian ∷ [];
      popular = some true;
      is_new = none;
      category = "Sides";
    }
    ∷ record {
      id = "smoke-4";
      restaurant_id = "smoke";
      name = "Cornbread & Slaw Combo";
      description = "Honey-butter cornbread squares with tangy buttermilk slaw.";
      price = 42;
      serves_min = 12;
      serves_max = 16;
      image = (image_url "1559847844-5315695dadae" "900");
      cuisine = bbq;
      dietary = vegetarian ∷ [];
      popular = none;
      is_new = none;
      category = "Sides";
    }
    ∷ []
