-- ===== src/Catalog/Packages.antt =====
-- The configurable packages of customer-web/src/lib/data.ts.
use dinner_rush.Prelude.{none, some, true, List, [], ◌∷◌}
use dinner_rush.Types.{CateringPackage, indian, mexican, italian, healthy}
use dinner_rush.Catalog.Image.{image_url}

abbrev pub packages : List CateringPackage
packages =
    record {
      id = "pkg-indian";
      slug = "indian-feast-package";
      name = "Indian Feast Package";
      tagline = "Build your own Indian spread";
      description =
          "A fully customizable Indian feast — choose your mains, a starter and a fresh side. Sized to your headcount and pulled from the city's best kitchens.";
      image = (image_url "1601050690597-df0568f70950" "900");
      theme = "Indian";
      cuisine = indian;
      min_guests = 20;
      sections =
          record {
            name = "Mains";
            max_selections = 2;
            options =
                record { dish_id = "saffron-1"; label = none }
                ∷ record { dish_id = "saffron-2"; label = none }
                ∷ record { dish_id = "saffron-3"; label = none }
                ∷ [];
          }
          ∷ record {
            name = "Starter";
            max_selections = 1;
            options =
                record { dish_id = "saffron-4"; label = none }
                ∷ record { dish_id = "olive-1"; label = none }
                ∷ [];
          }
          ∷ record {
            name = "Fresh side";
            max_selections = 1;
            options =
                record { dish_id = "verde-3"; label = none }
                ∷ record { dish_id = "olive-4"; label = none }
                ∷ [];
          }
          ∷ [];
      popular = some true;
    }
    ∷ record {
      id = "pkg-taco";
      slug = "taco-bar-package";
      name = "Taco Bar Package";
      tagline = "A fiesta, your way";
      description =
          "Pick your main taco bar, a couple of sides and a sweet finish. Crowd-pleasing and endlessly customizable.";
      image = (image_url "1565557623262-b51c2513a641" "900");
      theme = "Mexican";
      cuisine = mexican;
      min_guests = 15;
      sections =
          record {
            name = "Main";
            max_selections = 1;
            options =
                record { dish_id = "fuego-1"; label = none }
                ∷ record { dish_id = "fuego-2"; label = none }
                ∷ [];
          }
          ∷ record {
            name = "Sides";
            max_selections = 2;
            options =
                record { dish_id = "fuego-3"; label = none }
                ∷ record { dish_id = "fuego-4"; label = none }
                ∷ record { dish_id = "verde-2"; label = none }
                ∷ [];
          }
          ∷ record {
            name = "Dessert";
            max_selections = 1;
            options =
                record { dish_id = "verde-4"; label = none }
                ∷ record { dish_id = "nonna-4"; label = none }
                ∷ [];
          }
          ∷ [];
      popular = some true;
    }
    ∷ record {
      id = "pkg-italian";
      slug = "italian-dinner-package";
      name = "Italian Dinner Package";
      tagline = "Cozy Italian, customized";
      description =
          "Choose two pasta or pizza mains, a starter and a dessert from two beloved Italian kitchens.";
      image = (image_url "1473093295043-cdd812d0e601" "900");
      theme = "Italian";
      cuisine = italian;
      min_guests = 12;
      sections =
          record {
            name = "Mains";
            max_selections = 2;
            options =
                record { dish_id = "nonna-1"; label = none }
                ∷ record { dish_id = "nonna-2"; label = none }
                ∷ record { dish_id = "slice-1"; label = none }
                ∷ record { dish_id = "slice-2"; label = none }
                ∷ [];
          }
          ∷ record {
            name = "Starter";
            max_selections = 1;
            options =
                record { dish_id = "nonna-3"; label = none }
                ∷ record { dish_id = "slice-3"; label = none }
                ∷ record { dish_id = "slice-4"; label = none }
                ∷ [];
          }
          ∷ record {
            name = "Dessert";
            max_selections = 1;
            options = record { dish_id = "nonna-4"; label = none } ∷ [];
          }
          ∷ [];
      popular = none;
    }
    ∷ record {
      id = "pkg-healthy";
      slug = "healthy-lunch-package";
      name = "Healthy Lunch Package";
      tagline = "Bright, fresh, feel-good";
      description =
          "A grain-bowl bar, your pick of salad, a crunchy side and a light dessert. Deep-work fuel for the team.";
      image = (image_url "1512621776951-a57141f2eefd" "900");
      theme = "Healthy";
      cuisine = healthy;
      min_guests = 10;
      sections =
          record {
            name = "Bowl bar";
            max_selections = 1;
            options = record { dish_id = "verde-1"; label = none } ∷ [];
          }
          ∷ record {
            name = "Salad";
            max_selections = 1;
            options =
                record { dish_id = "verde-2"; label = none }
                ∷ record { dish_id = "olive-4"; label = none }
                ∷ [];
          }
          ∷ record {
            name = "Side";
            max_selections = 1;
            options =
                record { dish_id = "verde-3"; label = none }
                ∷ record { dish_id = "sakura-4"; label = none }
                ∷ [];
          }
          ∷ record {
            name = "Dessert";
            max_selections = 1;
            options = record { dish_id = "verde-4"; label = none } ∷ [];
          }
          ∷ [];
      popular = none;
    }
    ∷ []
