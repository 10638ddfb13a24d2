-- ===== src/Payments/Checkout.antt =====
-- payments/services.py's fulfill_checkout_session: a paid Stripe session becomes an order, once. What the
-- code reads of the session's payload is a record; a field is none where the payload has none.

pub mod Redelivery
use boxoffice.Payments.Fulfill.{FulfillError, Purchase, fulfill_hold, has_session}
use boxoffice.Payments.Purchases.{fulfill_donation, fulfill_pass_purchase}
use boxoffice.Common.{
  ℕ, Bool, true, false, not, ◌&&◌, Option, none, some, [], leb, ◌==◌, if◌then◌else◌, is_key,
  is_some, find_first,
}
use boxoffice.Common.Int.{ℤ}
use boxoffice.Common.Text.{Text, codes, is_blank}
use boxoffice.Common.Results.{Result, ok, err}
use boxoffice.Db.{Db, Hold, Order, PassProduct}

-- `metadata["kind"]` with what its branch reads: the gift is none where it does not parse.
pub data SessionKind : Type 0 where
  donation : Option ℤ → Option ℕ → SessionKind
  pass : Option ℕ → SessionKind
  tickets : Option ℕ → SessionKind

pub record Session : Type 0 where
  pub id : Text
  pub kind : SessionKind
  pub organization_id : Option ℕ
  pub marketing_opt_in : Bool
  pub email : Option Text
  pub name : Option Text
  pub payment_intent : Option Text

-- `a or b`
abbrev pub or_blank : Option Text → Text → Text
or_blank none other = other
or_blank (some t) other = if is_blank t then other else t

abbrev pub purchase_of : Session → Purchase
purchase_of s = record {
  buyer_email = or_blank s.email [];
  buyer_name = or_blank s.name [];
  payment_ref = or_blank s.payment_intent s.id;
  provider = codes "stripe";
  stripe_checkout_session_id = some s.id;
  marketing_opt_in = s.marketing_opt_in;
}

abbrev pub order_of_session : Db → ℕ → Text → Option Order
order_of_session db organization session = find_first (has_session organization session) db.orders

-- The campaign of a gift, where it still is.
abbrev pub campaign_of : (ℕ → ℕ → Bool) → ℕ → Option ℕ → Option ℕ
campaign_of exists organization none = none
campaign_of exists organization (some c) = if exists organization c then some c else none

abbrev pub product_of : Db → ℕ → Option ℕ → Option PassProduct
product_of db organization none = none
product_of db organization (some id) =
    find_first (λ p. p.organization == organization && p.id == id) db.pass_products

abbrev pub hold_of : Db → ℕ → Option ℕ → Option Hold
hold_of db organization hold_id =
    find_first (λ h. h.organization == organization && is_key hold_id h.id) db.holds

-- The order that a call made, or the one of the delivery that was faster; `otherwise` is what is raised
-- where there is none.
abbrev pub or_winner :
    Db
    → ℕ
    → Text
    → FulfillError
    → Result FulfillError (Db × Order)
    → Result FulfillError (Db × (Order × Bool))
or_winner db organization session otherwise (ok (db', order)) = ok (db', (order, true))
or_winner db organization session otherwise (err FulfillError.integrity_error) =
    elim (order_of_session db organization session) [
      | some winner ↦ ok (db, (winner, false))
      | none ↦ err otherwise
    ]
or_winner db organization session otherwise (err e) = err e

-- `campaign_exists` asks the donations app's table of campaigns.
module _ (new_token : ℕ → Text) (campaign_exists : ℕ → ℕ → Bool) where
  unfoldable pub dispatch :
      Db → ℕ → Session → SessionKind → ℕ → Result FulfillError (Db × (Order × Bool))
  unfolding fulfill_donation fulfill_pass_purchase fulfill_hold
  dispatch db organization s (SessionKind.donation none campaign) now =
      err FulfillError.donation_data
  dispatch db organization s (SessionKind.donation (some amount) campaign) now =
      or_winner db organization s.id FulfillError.integrity_error (
        fulfill_donation new_token db organization amount
          (campaign_of campaign_exists organization campaign) (purchase_of s) now)
  dispatch db organization s (SessionKind.pass product) now =
      elim (product_of db organization product) [
        | none ↦ err FulfillError.pass_data
        | some p ↦
            or_winner db organization s.id FulfillError.integrity_error
              (fulfill_pass_purchase new_token db organization p (purchase_of s) now)
      ]
  dispatch db organization s (SessionKind.tickets hold_id) now =
      elim (hold_of db organization hold_id) [
        | none ↦ err FulfillError.hold_gone
        | some hold ↦
            if leb hold.expires_at now
            then err FulfillError.hold_gone
            else or_winner db organization s.id (FulfillError.availability_changed [])
                (fulfill_hold new_token db hold (purchase_of s) now)
      ]

  -- The order, and whether this call made it.
  unfoldable pub fulfill_checkout_session :
      Db → ℕ → Session → ℕ → Result FulfillError (Db × (Order × Bool))
  unfolding dispatch
  fulfill_checkout_session db organization s now = elim (order_of_session db organization s.id) [
    | some existing ↦ ok (db, (existing, false))
    | none ↦
        if is_some s.organization_id && not (is_key s.organization_id organization)
        then err FulfillError.tenant_mismatch
        else dispatch db organization s s.kind now
  ]
