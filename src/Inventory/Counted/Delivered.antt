-- ===== src/Inventory/Counted/Delivered.antt =====
-- payments/services.py's fulfill_checkout_session counts every general-admission ticket that it mints as
-- sold.
use boxoffice.Common.{
  ℕ, inl, inr, Bool, true, false, not, ◌&&◌, none, some, [], leb, if◌then◌else◌, is_key, is_some,
  Option-cases,
}
use boxoffice.Common.Text.{Text}
use boxoffice.Common.Results.{Result, ok, err, OnOk}
use boxoffice.Payments.Fulfill.{FulfillError}
use boxoffice.Payments.Checkout.{
  Session, SessionKind, purchase_of, order_of_session, product_of, hold_of, or_winner, dispatch,
  fulfill_checkout_session, campaign_of,
}
use boxoffice.Db.{Db, Order}
use boxoffice.Inventory.Counted.{IsCounted}
use boxoffice.Inventory.Counted.Placed.{donation-IsCounted, pass-IsCounted, fulfill_hold-IsCounted}

module _ (new_token : ℕ → Text) (now : ℕ) (db : Db) (c : IsCounted db) where
  or_winner-IsCounted :
      (organization : ℕ) (session : Text) (otherwise : FulfillError)
      (r : Result FulfillError (Db × Order))
      → OnOk IsCounted r
      → OnOk IsCounted (or_winner db organization session otherwise r)
  or_winner-IsCounted organization session otherwise (ok (db', o)) a = a
  or_winner-IsCounted organization session otherwise (err FulfillError.integrity_error) a =
      elim (Option-cases (order_of_session db organization session)) [
        | inl nobody ↦ rw (nobody, OnOk) tt
        | inr (winner, e) ↦ rw (e, OnOk) c
      ]
  or_winner-IsCounted organization session otherwise (err FulfillError.hold_gone) a = tt
  or_winner-IsCounted organization session otherwise (err (FulfillError.availability_changed ids))
        a =
      tt
  or_winner-IsCounted organization session otherwise (err FulfillError.allocation_missing) a = tt
  or_winner-IsCounted organization session otherwise (err FulfillError.donation_data) a = tt
  or_winner-IsCounted organization session otherwise (err FulfillError.pass_data) a = tt
  or_winner-IsCounted organization session otherwise (err FulfillError.tenant_mismatch) a = tt

  guarded :
      (b : Bool) (e : FulfillError) (r : Result FulfillError (Db × (Order × Bool)))
      → OnOk IsCounted r
      → OnOk IsCounted (if b then err e else r)
  guarded true e r a = tt
  guarded false e r a = a

  module _ (campaign_exists : ℕ → ℕ → Bool) (organization : ℕ) (s : Session) where
    dispatch-IsCounted :
        (kind : SessionKind)
        → OnOk IsCounted (dispatch new_token campaign_exists db organization s kind now)
    unfolding dispatch
    dispatch-IsCounted (SessionKind.donation none campaign) = tt
    dispatch-IsCounted (SessionKind.donation (some amount) campaign) =
        or_winner-IsCounted organization s.id FulfillError.integrity_error _ (
          donation-IsCounted new_token now db c organization amount
            (campaign_of campaign_exists organization campaign) (purchase_of s))
    dispatch-IsCounted (SessionKind.pass product) =
        elim (Option-cases (product_of db organization product)) [
          | inl missing ↦ rw (missing, OnOk, dispatch) tt
          | inr (p, found) ↦
              rw (found, OnOk, dispatch)
                (or_winner-IsCounted organization s.id FulfillError.integrity_error _
                  (pass-IsCounted new_token now db c organization p (purchase_of s)))
        ]
    dispatch-IsCounted (SessionKind.tickets hold_id) =
        elim (Option-cases (hold_of db organization hold_id)) [
          | inl missing ↦ rw (missing, OnOk, dispatch) tt
          | inr (hold, found) ↦
              rw (found, OnOk, dispatch)
                (guarded (leb hold.expires_at now) FulfillError.hold_gone _ (
                  or_winner-IsCounted organization s.id (FulfillError.availability_changed []) _
                    (fulfill_hold-IsCounted new_token now db c hold (purchase_of s))))
        ]

    pub fulfill_checkout_session-IsCounted :
        OnOk IsCounted (fulfill_checkout_session new_token campaign_exists db organization s now)
    unfolding fulfill_checkout_session
    fulfill_checkout_session-IsCounted =
        elim (Option-cases (order_of_session db organization s.id)) [
          | inr (existing, e) ↦ rw (e, OnOk, fulfill_checkout_session) c
          | inl new ↦
              rw (new, OnOk, fulfill_checkout_session)
                (guarded (is_some s.organization_id && not (is_key s.organization_id organization))
                  FulfillError.tenant_mismatch _ (dispatch-IsCounted s.kind))
        ]
