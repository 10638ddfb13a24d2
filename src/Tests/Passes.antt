-- ===== src/Tests/Passes.antt =====
-- Runs of the model, and the theorems at those inputs: a pass.
use boxoffice.Common.{◌≡◌, refl, false, none, some, [], ◌∷◌, arith}
use boxoffice.Common.Int.{pos}
use boxoffice.Common.Text.{codes}
use boxoffice.Common.Results.{Result, ok, err}
use boxoffice.Db.{Db, Order, PassKind, PassStatus, PassPurchase, PassRedemption}
use boxoffice.Passes.{restore_redemptions_for_order}
use boxoffice.Passes.Balance.{Entitled}
use boxoffice.Passes.Balance.Restored.{Restored, restore_redemptions_for_order_exact}
use boxoffice.Payments.PassRedemption.{fetch_pass, fulfill_hold_with_pass, record_uses, RedeemError}
use boxoffice.Passes.{redeemable_now, pass_covers_performance}
use boxoffice.Guests.{get_or_create_for_email}
use boxoffice.Common.Results.{Result}
use boxoffice.Payments.PassRedemption.Credits.{fulfill_hold_with_pass-Entitled}
use boxoffice.Payments.PassRedemption.Used.{IsUsed}
use boxoffice.Tests.{shop}
use boxoffice.Tests.Holds.{seat_buyer, with_seats, token_of}
use boxoffice.Tests.Orders.{sold_order}

-- A flex pass of four credits, one of them used, is spent on the two seats.
abbrev four_pack : PassPurchase
four_pack = record {
  id = 9;
  organization = 7;
  product = 1;
  guest = none;
  order = 30;
  kind = PassKind.flex;
  credit_count = some 4;
  credits_remaining = some 3;
  valid_from = none;
  valid_until = some 300000;
  covered_events = [];
  status = PassStatus.active;
}

abbrev first_use : PassRedemption
first_use = record {
  organization = 7;
  pass_purchase = 9;
  order = 31;
  ticket = 32;
  performance = 1;
  event = 1;
  seat = none;
  face_value = pos 2500;
  credits_used = 1;
}

abbrev with_pass : Db
with_pass = record with_seats { pass_purchases = four_pack ∷ []; pass_redemptions = first_use ∷ [] }

with_pass-Entitled : Entitled with_pass
with_pass-Entitled = record {
  metered = (
    λ _. record {
      left = 3;
      sold = 4;
      credits_remaining = refl;
      credit_count = refl;
      conserved = refl;
    },
    tt,
  );
  season_once = λ pass event. ground arith;
  pass_once = λ k. ground arith;
}

abbrev redeemed : Result RedeemError (Db × Order)
unfolding fulfill_hold_with_pass
redeemed =
    fulfill_hold_with_pass token_of with_pass seat_buyer 9 (codes "ann@example.org") (codes "Ann")
      false 1000

abbrev tables_or : Db → Result RedeemError (Db × Order) → Db
tables_or db (ok (db', order)) = db'
tables_or db (err e) = db

abbrev order_or : Order → Result RedeemError (Db × Order) → Order
order_or o (ok (db', order)) = order
order_or o (err e) = o

abbrev after_pass : Db
unfolding redeemed
after_pass = tables_or shop redeemed

redeemed_run :
    fulfill_hold_with_pass token_of with_pass seat_buyer 9
      (codes "ann@example.org")
      (codes "Ann")
      false
      1000
    ≡ ok (after_pass, order_or sold_order redeemed)
unfolding fulfill_hold_with_pass record_uses after_pass redeemed redeemable_now
    pass_covers_performance get_or_create_for_email
redeemed_run = refl

fulfill_hold_with_pass-Entitled_example :
    Entitled after_pass
    × ((p : PassPurchase)
        → fetch_pass with_pass 9 ≡ ok p
        → IsUsed with_pass after_pass seat_buyer p)
fulfill_hold_with_pass-Entitled_example =
    fulfill_hold_with_pass-Entitled token_of with_pass seat_buyer 9 (codes "ann@example.org")
      (codes "Ann") false 1000 with_pass-Entitled tt redeemed_run

restore_redemptions_for_order_exact_example :
    Restored 31 with_pass
      (restore_redemptions_for_order with_pass 31).0
      (restore_redemptions_for_order with_pass 31).1
restore_redemptions_for_order_exact_example =
    restore_redemptions_for_order_exact with_pass 31 with_pass-Entitled
