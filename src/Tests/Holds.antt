-- ===== src/Tests/Holds.antt =====
-- Runs of the model, and the theorems at those inputs: the holds and their sale.
use boxoffice.Common.{ℕ, ◌+◌, ◌≤◌, ◌≡◌, refl, ◌↔◌, true, Option, none, some, [], ◌∷◌, arith, ◌==◌}
use boxoffice.Common.Int.{pos, ◌-ℤ◌, ◌≤ℤ◌}
use boxoffice.Common.Text.{Text, codes, text_eq}
use boxoffice.Common.Results.{ok, err}
use boxoffice.Db.{Db, GaAllocation, HoldSeat, Hold, Order}
use boxoffice.Orders.Fits.{set_ga_hold-ga_available}
use boxoffice.Orders.Fits.{set_ga_hold_iff}
use boxoffice.Orders.Availability.{ga_available}
use mathlib.Core.Bool.{false≢true}
use boxoffice.Orders.Availability.{active_ga_held_qty, resolve_reserved_prices}
use boxoffice.Orders.Holds.{HoldError, set_ga_hold, set_reserved_hold, release_hold_by_id}
use boxoffice.Orders.Money.{hold_grand_total}
use boxoffice.Payments.Fulfill.{Purchase, fulfill_hold}
use boxoffice.Inventory.{IsSound}
use boxoffice.Inventory.Changes.{later-IsSound}
use boxoffice.Inventory.Holds.{set_ga_hold-IsSound}
use boxoffice.Inventory.Released.{Released, release_hold_by_id_scoped}
use boxoffice.Inventory.Seats.{set_reserved_hold-IsSound}
use boxoffice.Inventory.Sales.{IsLive}
use boxoffice.Inventory.Fulfilled.{fulfill_hold-IsSound}
use boxoffice.Inventory.Progress.{AreNew, IsPlaced, fulfill_hold_succeeds}
use boxoffice.Events.Pricing.{resolve_seat_tier, zones_by_seat_id}
use boxoffice.Tests.{gala, recital, standard, shop, shop-IsSound}

-- Session 40 asks for two places.
abbrev pub ga_buyer : Hold
ga_buyer = record {
  id = 50;
  organization = 7;
  performance = 1;
  session_key = 40;
  user = none;
  expires_at = 1600;
  price_tier = some 1;
  quantity = some 2;
  ga_unit_amount = some (pos 2500);
  hold_seats = [];
  promo_code = none;
  promo_code_text = [];
  discount_amount = none;
  donation_amount = none;
  donation_campaign = none;
}

abbrev with_ga : Db
with_ga = record shop { holds = ga_buyer ∷ []; next_id = 51 }

pub set_ga_hold_run : set_ga_hold shop 7 gala 40 none standard 2 1000 ≡ ok (with_ga, some ga_buyer)
unfolding set_ga_hold ◌-ℤ◌ active_ga_held_qty
set_ga_hold_run = refl

abbrev pub places : GaAllocation
places = record { performance = 1; capacity = 4; sold = 1 }

set_ga_hold_iff_example :
    ((r : Db × Option Hold) × (set_ga_hold shop 7 gala 40 none standard 2 1000 ≡ ok r))
    ↔ (1 + active_ga_held_qty shop 1 (some 40) 1000 + 2 ≤ 4)
set_ga_hold_iff_example = set_ga_hold_iff shop 7 gala 40 none standard 2 1000 places refl refl

set_ga_hold-ga_available_example :
    ((r : Db × Option Hold) × (set_ga_hold shop 7 gala 40 none standard 2 1000 ≡ ok r))
    ↔ (pos 2 ≤ℤ ga_available shop 1 (some 40) 1000)
set_ga_hold-ga_available_example =
    set_ga_hold-ga_available shop 7 gala 40 none standard 2 1000 places refl refl

with_ga-IsSound : IsSound 1000 with_ga
with_ga-IsSound =
    set_ga_hold-IsSound 1000 shop 7 gala 40 none standard 2 refl shop-IsSound set_ga_hold_run

set_ga_hold-IsSound_example : IsSound 1000 with_ga
set_ga_hold-IsSound_example =
    set_ga_hold-IsSound 1000 shop 7 gala 40 none standard 2 refl shop-IsSound set_ga_hold_run

-- Session 41 takes seats 22 and 21 of the recital.
abbrev held : ℕ → HoldSeat
held n = record { seat = n; price_tier = some 2; pricing_zone = none; unit_amount = pos 4000 }

abbrev pub seat_buyer : Hold
seat_buyer = record ga_buyer {
  performance = 2;
  session_key = 41;
  price_tier = none;
  quantity = none;
  ga_unit_amount = none;
  hold_seats = held 21 ∷ held 22 ∷ [];
}

abbrev pub with_seats : Db
with_seats = record shop { holds = seat_buyer ∷ []; next_id = 51 }

set_reserved_hold_run :
    set_reserved_hold shop 7 recital 41 none (22 ∷ 21 ∷ 22 ∷ []) 1000
    ≡ ok (with_seats, some seat_buyer)
unfolding set_reserved_hold resolve_reserved_prices zones_by_seat_id resolve_seat_tier
set_reserved_hold_run = refl

with_seats-IsSound : IsSound 1000 with_seats
with_seats-IsSound =
    set_reserved_hold-IsSound 1000 shop 7 recital 41 none (22 ∷ 21 ∷ 22 ∷ []) refl shop-IsSound
      set_reserved_hold_run

set_reserved_hold-IsSound_example : IsSound 1000 with_seats
set_reserved_hold-IsSound_example =
    set_reserved_hold-IsSound 1000 shop 7 recital 41 none (22 ∷ 21 ∷ 22 ∷ []) refl shop-IsSound
      set_reserved_hold_run

-- A blocked seat is refused.
set_reserved_hold_blocked :
    set_reserved_hold shop 7 recital 41 none (23 ∷ []) 1000 ≡ err (HoldError.just_taken (23 ∷ []))
unfolding set_reserved_hold resolve_reserved_prices zones_by_seat_id resolve_seat_tier
set_reserved_hold_blocked = refl

abbrev pub card : Purchase
card = record {
  buyer_email = codes " Ann@Example.org ";
  buyer_name = codes "Ann";
  payment_ref = codes "pi_1";
  provider = codes "stripe";
  stripe_checkout_session_id = some (codes "cs_1");
  marketing_opt_in = true;
}

abbrev pub token_of : ℕ → Text
token_of n = n ∷ []

seat_buyer-IsLive : IsLive 1000 with_seats seat_buyer
seat_buyer-IsLive = record { test = λ h. h.id == 50; found = refl; active = refl }

ga_buyer-IsLive : IsLive 1000 with_ga ga_buyer
ga_buyer-IsLive = record { test = λ h. h.id == 50; found = refl; active = refl }

seat_buyer-IsPlaced : IsPlaced with_seats seat_buyer
seat_buyer-IsPlaced = record {
  distinct = (refl, (refl, tt));
  allocated = λ h. absurd (false≢true h);
}

two_tokens : (i j : ℕ) → text_eq (token_of i) (token_of j) ≡ true → i ≡ j
two_tokens i j h = ground (arith, h)

with_seats-AreNew : AreNew token_of with_seats
with_seats-AreNew = record { distinct = two_tokens; orders = λ i le. refl; tickets = λ i le. refl }

with_ga-AreNew : AreNew token_of with_ga
with_ga-AreNew = record { distinct = two_tokens; orders = λ i le. refl; tickets = λ i le. refl }

fulfill_hold_succeeds_example :
    (db' : Db) × (o : Order) × (fulfill_hold token_of with_seats seat_buyer card 1000 ≡ ok (db', o))
    × (o.total ≡ hold_grand_total with_seats seat_buyer)
fulfill_hold_succeeds_example =
    fulfill_hold_succeeds token_of 1000 with_seats seat_buyer card with_seats-IsSound
      seat_buyer-IsLive seat_buyer-IsPlaced with_seats-AreNew refl

abbrev ga_allocated : IsPlaced with_ga ga_buyer
ga_allocated = record {
  distinct = tt;
  allocated = λ h. (record { performance = 1; capacity = 4; sold = 1 }, refl);
}

pub ga_sale :
    (db' : Db) × (o : Order) × (fulfill_hold token_of with_ga ga_buyer card 1000 ≡ ok (db', o))
    × (o.total ≡ hold_grand_total with_ga ga_buyer)
ga_sale =
    fulfill_hold_succeeds token_of 1000 with_ga ga_buyer card with_ga-IsSound ga_buyer-IsLive
      ga_allocated with_ga-AreNew refl

fulfill_hold-IsSound_example : IsSound 1000 ga_sale.0
fulfill_hold-IsSound_example =
    fulfill_hold-IsSound token_of 1000 with_ga ga_buyer card with_ga-IsSound ga_buyer-IsLive
      ga_sale.2

later-IsSound_example : IsSound 1600 with_ga
later-IsSound_example = later-IsSound 1000 1600 (omega arith) with_ga with_ga-IsSound

release_hold_by_id_scoped_example :
    Released 7 40 (some 50) 1000 with_ga (release_hold_by_id with_ga 7 40 (some 50))
release_hold_by_id_scoped_example =
    release_hold_by_id_scoped 1000 with_ga 7 40 (some 50) with_ga-IsSound
