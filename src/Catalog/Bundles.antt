-- ===== src/Catalog/Bundles.antt =====
-- The curated bundles of customer-web/src/lib/data.ts.
use dinner_rush.Prelude.{none, some, true, List, [], ◌∷◌}
use dinner_rush.Types.{CuratedBundle}
use dinner_rush.Catalog.Image.{image_url}

abbrev pub bundles : List CuratedBundle
bundles =
    record {
      id = "b-world";
      slug = "around-the-world-lunch";
      name = "Around the World Lunch";
      tagline = "Four cuisines, one delivery";
      description =
          "Can't agree on a cuisine? Don't. This crowd-pleaser bundles a taco bar, ramen kits, butter chicken and a grain-bowl bar from four local kitchens into a single drop-off.";
      serves = 14;
      price_per_person = 24;
      image = (image_url "1504674900247-0877df9cc836" "900");
      theme = "Global";
      dish_ids = "fuego-1" ∷ "sakura-1" ∷ "saffron-1" ∷ "verde-1" ∷ [];
      tags = "Most Popular" ∷ "4 restaurants" ∷ "Crowd-pleaser" ∷ [];
      popular = some true;
    }
    ∷ record {
      id = "b-fiesta";
      slug = "office-taco-fiesta";
      name = "Office Taco Fiesta";
      tagline = "Taco Tuesday, handled";
      description =
          "A build-your-own taco bar, loaded nachos, chips-and-guac and a bright kale caesar to keep it balanced.";
      serves = 15;
      price_per_person = 18;
      image = (image_url "1565557623262-b51c2513a641" "900");
      theme = "Mexican";
      dish_ids = "fuego-1" ∷ "fuego-3" ∷ "fuego-4" ∷ "verde-2" ∷ [];
      tags = "3 restaurants" ∷ "Vegetarian options" ∷ [];
      popular = some true;
    }
    ∷ record {
      id = "b-pasta";
      slug = "pasta-night-social";
      name = "Pasta Night Social";
      tagline = "Cozy Italian comfort";
      description =
          "Baked rigatoni, a margherita party box, antipasto salad and tiramisu cups for the win.";
      serves = 14;
      price_per_person = 19;
      image = (image_url "1473093295043-cdd812d0e601" "900");
      theme = "Italian";
      dish_ids = "nonna-1" ∷ "slice-1" ∷ "slice-3" ∷ "nonna-4" ∷ [];
      tags = "2 restaurants" ∷ "Dessert included" ∷ [];
      popular = none;
    }
    ∷ record {
      id = "b-reset";
      slug = "healthy-team-reset";
      name = "Healthy Team Reset";
      tagline = "Bright, fresh & feel-good";
      description =
          "A grain-bowl bar, citrus kale caesar, rainbow crudité and açaí cups — light enough for an afternoon of deep work.";
      serves = 14;
      price_per_person = 17;
      image = (image_url "1512621776951-a57141f2eefd" "900");
      theme = "Healthy";
      dish_ids = "verde-1" ∷ "verde-2" ∷ "verde-3" ∷ "verde-4" ∷ [];
      tags = "Vegan options" ∷ "Gluten-free options" ∷ [];
      popular = none;
    }
    ∷ record {
      id = "b-bbq";
      slug = "bbq-backyard-bash";
      name = "BBQ Backyard Bash";
      tagline = "Smoky, hearty, celebratory";
      description =
          "Brisket and burnt ends, pulled-pork sliders, smoked mac and cornbread with slaw — bring the napkins.";
      serves = 14;
      price_per_person = 27;
      image = (image_url "1593560708920-61dd98c46a4e" "900");
      theme = "BBQ";
      dish_ids = "smoke-1" ∷ "smoke-2" ∷ "smoke-3" ∷ "smoke-4" ∷ [];
      tags = "Premium" ∷ "Team celebration" ∷ [];
      popular = none;
    }
    ∷ record {
      id = "b-breakfast";
      slug = "sunrise-standup-breakfast";
      name = "Sunrise Standup Breakfast";
      tagline = "Fuel the morning standup";
      description =
          "A bagel bar, pancake stack, breakfast classics and fruit-yogurt parfaits to start the day right.";
      serves = 16;
      price_per_person = 14;
      image = (image_url "1533089860892-a7c6f0a88666" "900");
      theme = "Breakfast";
      dish_ids = "sunrise-1" ∷ "sunrise-2" ∷ "sunrise-3" ∷ "verde-4" ∷ [];
      tags = "2 restaurants" ∷ "Early delivery" ∷ [];
      popular = none;
    }
    ∷ []
