-- ===== src/Catalog/Dishes.antt =====
-- The dishes of customer-web/src/lib/data.ts, in its order: one list for each kitchen.
mod Italian
mod AsianMexican
mod HealthyBbq
mod Others
use dinner_rush.Prelude.{List, ◌++◌}
use dinner_rush.Types.{Dish}
use Italian.{nonna_dishes, slice_dishes}
use AsianMexican.{fuego_dishes, sakura_dishes, dragon_dishes}
use HealthyBbq.{verde_dishes, smoke_dishes}
use Others.{olive_dishes, saffron_dishes, sunrise_dishes}

abbrev pub dishes : List Dish
dishes =
    nonna_dishes ++ slice_dishes ++ fuego_dishes ++ sakura_dishes ++ dragon_dishes ++ verde_dishes
    ++ smoke_dishes ++ olive_dishes ++ saffron_dishes ++ sunrise_dishes
