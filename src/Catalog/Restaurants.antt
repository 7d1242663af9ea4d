-- ===== src/Catalog/Restaurants.antt =====
-- The restaurants of customer-web/src/lib/data.ts, in its order.
use dinner_rush.Prelude.{none, some, true, List, [], ◌∷◌}
use dinner_rush.Types.{
  Restaurant, italian, mexican, asian, healthy, bbq, mediterranean, indian, breakfast,
}
use dinner_rush.Catalog.Image.{image_url}

abbrev pub restaurants : List Restaurant
restaurants =
    record {
      id = "nonna";
      slug = "nonnas-table";
      name = "Nonna's Table";
      tagline = "Soulful family-style Italian";
      cuisine = italian;
      rating = 49;
      reviews = 412;
      price_level = 2;
      prep_time = "24h notice";
      min_order = 120;
      image = (image_url "1473093295043-cdd812d0e601" "900");
      logo_color = "#d6266e";
      neighborhood = "North End";
      badges = some ("Top Rated" ∷ "Office Favorite" ∷ []);
      featured = some true;
    }
    ∷ record {
      id = "slice";
      slug = "slice-society";
      name = "Slice Society";
      tagline = "Wood-fired pizzas by the crowd";
      cuisine = italian;
      rating = 47;
      reviews = 289;
      price_level = 1;
      prep_time = "Same day";
      min_order = 90;
      image = (image_url "1513104890138-7c749659a591" "900");
      logo_color = "#e8431f";
      neighborhood = "Mission";
      badges = some ("Fast Prep" ∷ []);
      featured = some true;
    }
    ∷ record {
      id = "fuego";
      slug = "el-fuego-taqueria";
      name = "El Fuego Taqueria";
      tagline = "Build-your-own taco fiestas";
      cuisine = mexican;
      rating = 48;
      reviews = 521;
      price_level = 2;
      prep_time = "Same day";
      min_order = 110;
      image = (image_url "1565557623262-b51c2513a641" "900");
      logo_color = "#e8431f";
      neighborhood = "Mission";
      badges = some ("Crowd Pleaser" ∷ []);
      featured = some true;
    }
    ∷ record {
      id = "sakura";
      slug = "sakura-ramen-house";
      name = "Sakura Ramen House";
      tagline = "Steamy ramen kits & dumplings";
      cuisine = asian;
      rating = 48;
      reviews = 198;
      price_level = 2;
      prep_time = "24h notice";
      min_order = 140;
      image = (image_url "1551183053-bf91a1d81141" "900");
      logo_color = "#6d28c9";
      neighborhood = "Japantown";
      badges = some ("New" ∷ []);
      featured = some true;
    }
    ∷ record {
      id = "dragon";
      slug = "dragon-wok";
      name = "Dragon Wok";
      tagline = "Sushi boats & wok classics";
      cuisine = asian;
      rating = 46;
      reviews = 312;
      price_level = 2;
      prep_time = "Same day";
      min_order = 130;
      image = (image_url "1579584425555-c3ce17fd4351" "900");
      logo_color = "#6d28c9";
      neighborhood = "Downtown";
      badges = none;
      featured = none;
    }
    ∷ record {
      id = "verde";
      slug = "verde-bowl-co";
      name = "Verde Bowl Co.";
      tagline = "Bright grain bowls & salads";
      cuisine = healthy;
      rating = 49;
      reviews = 367;
      price_level = 2;
      prep_time = "Same day";
      min_order = 95;
      image = (image_url "1512621776951-a57141f2eefd" "900");
      logo_color = "#157a4e";
      neighborhood = "SoMa";
      badges = some ("Healthiest" ∷ "Vegan-friendly" ∷ []);
      featured = some true;
    }
    ∷ record {
      id = "smoke";
      slug = "smokestack-bbq";
      name = "Smokestack BBQ";
      tagline = "Low-and-slow Texas brisket";
      cuisine = bbq;
      rating = 47;
      reviews = 244;
      price_level = 3;
      prep_time = "48h notice";
      min_order = 180;
      image = (image_url "1593560708920-61dd98c46a4e" "900");
      logo_color = "#ffb020";
      neighborhood = "Dogpatch";
      badges = some ("Premium" ∷ []);
      featured = some true;
    }
    ∷ record {
      id = "olive";
      slug = "olive-and-thyme";
      name = "Olive & Thyme";
      tagline = "Sunny Mediterranean mezze";
      cuisine = mediterranean;
      rating = 48;
      reviews = 176;
      price_level = 2;
      prep_time = "Same day";
      min_order = 100;
      image = (image_url "1607330289024-1535c6b4e1c1" "900");
      logo_color = "#0e7490";
      neighborhood = "Hayes Valley";
      badges = none;
      featured = none;
    }
    ∷ record {
      id = "saffron";
      slug = "saffron-spice-kitchen";
      name = "Saffron Spice Kitchen";
      tagline = "Aromatic Indian feasts";
      cuisine = indian;
      rating = 49;
      reviews = 301;
      price_level = 2;
      prep_time = "24h notice";
      min_order = 120;
      image = (image_url "1601050690597-df0568f70950" "900");
      logo_color = "#c2410c";
      neighborhood = "Tenderloin";
      badges = some ("Top Rated" ∷ []);
      featured = none;
    }
    ∷ record {
      id = "sunrise";
      slug = "sunrise-brunch-club";
      name = "Sunrise Brunch Club";
      tagline = "All-day breakfast spreads";
      cuisine = breakfast;
      rating = 47;
      reviews = 158;
      price_level = 1;
      prep_time = "Same day";
      min_order = 80;
      image = (image_url "1533089860892-a7c6f0a88666" "900");
      logo_color = "#f4a21e";
      neighborhood = "Marina";
      badges = none;
      featured = none;
    }
    ∷ []
