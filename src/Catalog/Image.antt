-- ===== src/Catalog/Image.antt =====
-- The image addresses of customer-web/src/lib/data.ts. The width is written as its decimal text.
use dinner_rush.Prelude.{String}
use dinner_rush.Prelude.Text.{◌+s◌}

pub image_url : String → String → String
image_url id w =
    "https://images.unsplash.com/photo-" +s id +s "?w=" +s w +s "&q=80&auto=format&fit=crop"
