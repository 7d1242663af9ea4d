-- ===== src/Catalog/Cuisines.antt =====
-- The cuisines of customer-web/src/lib/data.ts.
use dinner_rush.Prelude.{List, [], ◌∷◌}
use dinner_rush.Types.{
  Cuisine, italian, mexican, asian, healthy, bbq, mediterranean, indian, breakfast,
}
use dinner_rush.Catalog.Image.{image_url}

abbrev pub cuisines : List Cuisine
cuisines =
    record {
      key = italian;
      label = "Italian";
      emoji = "🍝";
      color = "#d6266e";
      image = (image_url "1606787366850-de6330128bfc" "500");
    }
    ∷ record {
      key = mexican;
      label = "Mexican";
      emoji = "🌮";
      color = "#e8431f";
      image = (image_url "1565557623262-b51c2513a641" "500");
    }
    ∷ record {
      key = asian;
      label = "Asian";
      emoji = "🍜";
      color = "#6d28c9";
      image = (image_url "1551183053-bf91a1d81141" "500");
    }
    ∷ record {
      key = healthy;
      label = "Healthy";
      emoji = "🥗";
      color = "#157a4e";
      image = (image_url "1546069901-ba9599a7e63c" "500");
    }
    ∷ record {
      key = bbq;
      label = "BBQ";
      emoji = "🍖";
      color = "#ffb020";
      image = (image_url "1593560708920-61dd98c46a4e" "500");
    }
    ∷ record {
      key = mediterranean;
      label = "Mediterranean";
      emoji = "🥙";
      color = "#0e7490";
      image = (image_url "1607330289024-1535c6b4e1c1" "500");
    }
    ∷ record {
      key = indian;
      label = "Indian";
      emoji = "🍛";
      color = "#c2410c";
      image = (image_url "1601050690597-df0568f70950" "500");
    }
    ∷ record {
      key = breakfast;
      label = "Breakfast";
      emoji = "🥐";
      color = "#f4a21e";
      image = (image_url "1533089860892-a7c6f0a88666" "500");
    }
    ∷ []
