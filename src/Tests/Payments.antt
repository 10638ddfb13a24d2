-- ===== src/Tests/Payments.antt =====
-- Runs of the model, and the theorems at those inputs: a checkout session and a refund.
use boxoffice.Common.{ℕ, ◌≡◌, refl, Bool, true, false, Option, none, some, [], ◌∷◌, ◌==◌}
use boxoffice.Common.Int.{pos}
use boxoffice.Common.Text.{Text, codes}
use boxoffice.Common.Results.{Result, ok, err}
use boxoffice.Db.{Db, Order, PaymentStatus}
use boxoffice.Payments.Checkout.{Session, SessionKind, fulfill_checkout_session, dispatch}
use boxoffice.Payments.Checkout.Redelivery.{fulfill_checkout_session_idempotent}
use boxoffice.Payments.Purchases.{fulfill_donation}
use boxoffice.Payments.Refund.{refund_order, reverse_order}
use boxoffice.Payments.Refund.Once.{refund_order_once}
use boxoffice.Payments.Fulfill.{FulfillError, create_order}
use boxoffice.Guests.{get_or_create_for_email}
use boxoffice.Common.Results.{Result}
use boxoffice.Orders.Void.{live_tickets}
use boxoffice.Payments.Fulfill.{FulfillError}
use boxoffice.Tests.{shop}
use boxoffice.Tests.Holds.{token_of}
use boxoffice.Tests.Orders.{sold_order, sold_shop}

-- A gift of 25.00 that Stripe delivers twice.
abbrev gift_session : Session
gift_session = record {
  id = codes "cs_7";
  kind = SessionKind.donation (some (pos 2500)) (some 4);
  organization_id = some 7;
  marketing_opt_in = false;
  email = some (codes "ann@example.org");
  name = none;
  payment_intent = some (codes "pi_7");
}

abbrev pub campaigns : ℕ → ℕ → Bool
campaigns organization campaign = campaign == 4

abbrev delivered : Result FulfillError (Db × (Order × Bool))
unfolding fulfill_checkout_session
delivered = fulfill_checkout_session token_of campaigns shop 7 gift_session 1000

abbrev delivered_db : Result FulfillError (Db × (Order × Bool)) → Db
delivered_db (ok (db', rest)) = db'
delivered_db (err e) = shop

abbrev delivered_order : Result FulfillError (Db × (Order × Bool)) → Order
delivered_order (ok (db', (order, created))) = order
delivered_order (err e) = sold_order

delivered_run :
    fulfill_checkout_session token_of campaigns shop 7 gift_session 1000
    ≡ ok (delivered_db delivered, (delivered_order delivered, true))
unfolding fulfill_checkout_session dispatch fulfill_donation create_order delivered
    get_or_create_for_email
delivered_run = refl

fulfill_checkout_session_idempotent_example :
    fulfill_checkout_session token_of campaigns (delivered_db delivered) 7 gift_session 5000
    ≡ ok (delivered_db delivered, (delivered_order delivered, false))
fulfill_checkout_session_idempotent_example =
    fulfill_checkout_session_idempotent token_of campaigns shop 7 gift_session 1000 5000
      delivered_run

-- The order of two gala tickets, paid by card.
abbrev paid_shop : Db
paid_shop = record sold_shop {
  payments =
      record {
        order = 60;
        provider = codes "stripe";
        amount = pos 5000;
        status = PaymentStatus.succeeded;
        provider_ref = codes "pi_6";
      }
      ∷ [];
}

abbrev pub stripe : Text → Option Text
stripe intent = some (codes "re_6")

abbrev refunded_shop : Db
unfolding reverse_order
refunded_shop = reverse_order paid_shop sold_order (codes "stripe") (codes "re_6")

refund_order_run : refund_order stripe paid_shop 60 ≡ ok (refunded_shop, true)
unfolding refund_order refunded_shop
refund_order_run = refl

refund_order_once_example :
    (live_tickets refunded_shop 60 ≡ [])
    × (refund_order stripe refunded_shop 60 ≡ ok (refunded_shop, false))
refund_order_once_example = refund_order_once stripe paid_shop 60 refund_order_run
