-- ===== src/Tests/Prices.antt =====
-- Runs of the model, and the theorems at those inputs: the prices of a chart.
use boxoffice.Common.{◌≡◌, refl, true, some, [], ◌∷◌, arith, contains, count_by}
use boxoffice.Common.Int.{pos}
use boxoffice.Common.Text.{codes}
use boxoffice.Common.Results.{ok, err}
use boxoffice.Db.{Db, PricingZone}
use boxoffice.Events.Zones.{
  ZoneTemplate, ZoneError, apply_zone, remove_seats_from_zone, delete_zone, get_or_create_template,
  clone_zones_from_performance, seat_keys,
}
use boxoffice.Events.Zones.Moves.{OneZone, in_zone}
use boxoffice.Events.Zones.OneZone.{apply_zone-OneZone}
use boxoffice.Events.Zones.Clone.{clone_zones_from_performance-in_zone}
use boxoffice.Events.Pricing.{resolve_seat_price}
use boxoffice.Events.Pricing.Agreement.{IsSeated, resolve_reserved_prices-resolve_seat_price}
use boxoffice.Orders.Availability.{performance_seats}
use mathlib.Core.Bool.{false≢true}
use boxoffice.Orders.Availability.{resolve_reserved_prices, performance_seats}
use boxoffice.Tests.{recital, seat_at, shop}

-- The recital with its front row in a zone.
abbrev front : PricingZone
front = record {
  id = 8;
  organization = 7;
  performance = 2;
  template = some 1;
  name = codes "Front";
  color = codes "#f00";
  amount = pos 6000;
  seats = 21 ∷ 22 ∷ [];
}

abbrev zoned : Db
zoned = record shop { zones = front ∷ [] }

front_seat-IsSeated : IsSeated zoned recital 5 (seat_at 21)
unfolding performance_seats
front_seat-IsSeated = record {
  charted = refl;
  seat_row = (λ _. refl, (λ e. absurd (false≢true e), (λ e. absurd (false≢true e), tt)));
  seat_there = refl;
  section_row = (λ _. refl, tt);
  section_there = refl;
  one_zone = omega arith;
}

resolve_reserved_prices-resolve_seat_price_example :
    resolve_reserved_prices zoned recital 21 ≡ resolve_seat_price zoned recital (seat_at 21)
resolve_reserved_prices-resolve_seat_price_example =
    resolve_reserved_prices-resolve_seat_price zoned recital 5 (seat_at 21) front_seat-IsSeated

zoned-OneZone : OneZone zoned
zoned-OneZone = record {
  keyed = record { once = λ k. ground arith; below = (omega arith, tt) };
  once = λ p k. ground arith;
}

abbrev front_template : ZoneTemplate
front_template = record { id = 1; organization = 7; name = codes "Stage"; color = codes "#00f" }

-- The front row's zone takes seat 23 too, and a new price and look.
abbrev stage : PricingZone
stage = record front {
  name = codes "Stage";
  color = codes "#00f";
  amount = pos 7000;
  seats = 21 ∷ 22 ∷ 23 ∷ [];
}

apply_zone_run :
    apply_zone zoned 7 2 (22 ∷ 23 ∷ []) (pos 7000) front_template
    ≡ ok (record zoned { zones = stage ∷ [] }, stage)
unfolding apply_zone
apply_zone_run = refl

apply_zone-OneZone_example : OneZone (record zoned { zones = stage ∷ [] })
apply_zone-OneZone_example =
    apply_zone-OneZone zoned 7 2 (22 ∷ 23 ∷ []) (pos 7000) front_template zoned-OneZone
      apply_zone_run

-- Without a seat there is nothing to zone.
apply_zone_none :
    apply_zone zoned 7 2 [] (pos 7000) front_template ≡ err ZoneError.no_seats_selected
unfolding apply_zone
apply_zone_none = refl

remove_seats_run :
    (remove_seats_from_zone zoned 7 8 (22 ∷ [])).zones ≡ record front { seats = 21 ∷ [] } ∷ []
unfolding remove_seats_from_zone
remove_seats_run = refl

delete_zone_run : (delete_zone zoned 8).zones ≡ []
unfolding delete_zone
delete_zone_run = refl

typed_template :
    get_or_create_template (front_template ∷ []) 50 7 (codes "Stage") (codes "#fff") ≡ (
      record front_template { color = codes "#fff" } ∷ [],
      record front_template { color = codes "#fff" },
    )
unfolding get_or_create_template
typed_template = refl

recital_seat : contains 21 (seat_keys (performance_seats zoned recital)) ≡ true
unfolding performance_seats
recital_seat = refl

-- The performance's own zones, cloned onto it.
clone_zones_from_performance-in_zone_example :
    count_by (in_zone 2 21) (clone_zones_from_performance zoned 7 recital 2).zones ≡ 2
clone_zones_from_performance-in_zone_example =
    clone_zones_from_performance-in_zone zoned 7 recital 2 21 recital_seat
