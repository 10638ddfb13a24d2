-- ===== src/Inventory/Checkouts.antt =====
-- payments/services.py's fulfill_checkout_session keeps the inventory's invariant, whatever the session
-- buys and however often it is delivered.
use boxoffice.Guests.{get_or_create_for_email, record_marketing_opt_in}
use boxoffice.Payments.Fulfill.{
  FulfillError, Purchase, create_order, order_clashes, fulfill_hold, link_guest,
}
use boxoffice.Payments.Purchases.{plain_order, fulfill_donation, fulfill_pass_purchase}
use boxoffice.Payments.Checkout.{
  Session, SessionKind, purchase_of, order_of_session, product_of, hold_of, or_winner, dispatch,
  fulfill_checkout_session, campaign_of,
}
use boxoffice.Inventory.{IsSound}
use boxoffice.Inventory.Same.{SameInventory, same-IsSound}
use boxoffice.Inventory.Fulfilled.{fulfill_hold-OnOk}
use boxoffice.Common.{
  ℕ, ◌≤◌, ◌≡◌, refl, inl, inr, Bool, true, false, not, ◌&&◌, Option, none, some, [], arith, leb,
  ◌==◌, if◌then◌else◌, Bool-cases, Option-cases, is_key, is_some,
}
use boxoffice.Common.Int.{ℤ}
use boxoffice.Common.Text.{Text}
use boxoffice.Common.Results.{Result, ok, err, OnOk}
use boxoffice.Db.{Db, Hold, Order, PassProduct}

link_guest-same :
    (db : Db) (organization : ℕ) (purchase : Purchase) (now : ℕ)
    → SameInventory db (link_guest db organization purchase now).0
unfolding get_or_create_for_email record_marketing_opt_in
link_guest-same db organization purchase now = record {
  performance = ground arith;
  allocations = ground arith;
  holds = ground arith;
  tickets = ground arith;
  next_id = ground arith;
}

module _ (new_token : ℕ → Text) (now : ℕ) (db : Db) (v : IsSound now db) where
  -- Tables with other guests, orders, items, payments and passes.
  beside :
      (db' db'' : Db)
      → SameInventory db db'
      → db''.performance ≡ db'.performance
      → db''.allocations ≡ db'.allocations
      → db''.holds ≡ db'.holds
      → db''.tickets ≡ db'.tickets
      → db'.next_id ≤ db''.next_id
      → IsSound now db''
  beside db' db'' same p a h t n =
      same-IsSound now db' db''
        (record { performance = p; allocations = a; holds = h; tickets = t; next_id = n })
        (same-IsSound now db db' same v)

  donation-OnOk :
      (organization : ℕ) (amount : ℤ) (campaign : Option ℕ) (purchase : Purchase)
      → OnOk (IsSound now) (fulfill_donation new_token db organization amount campaign purchase now)
  unfolding fulfill_donation create_order
  donation-OnOk organization amount campaign purchase =
      let guested = (link_guest db organization purchase now).0 in
      elim (Bool-cases (
        order_clashes guested (
          plain_order new_token guested organization purchase
            (link_guest db organization purchase now).1 amount))) [
              | inl taken ↦ rw taken tt
              | inr free ↦ rw free (
                  beside guested _ (link_guest-same db organization purchase now) refl refl refl
                    refl (omega arith))
            ]

  pass-OnOk :
      (organization : ℕ) (product : PassProduct) (purchase : Purchase)
      → OnOk (IsSound now) (fulfill_pass_purchase new_token db organization product purchase now)
  unfolding fulfill_pass_purchase create_order
  pass-OnOk organization product purchase =
      let guested = (link_guest db organization purchase now).0 in
      elim (Bool-cases product.is_active) [
        | inr archived ↦ rw archived tt
        | inl active ↦
            rw active
              (elim (Bool-cases (
                order_clashes guested (
                  plain_order new_token guested organization purchase
                    (link_guest db organization purchase now).1 product.price))) [
                      | inl taken ↦ rw taken tt
                      | inr free ↦ rw free (
                          beside guested _ (link_guest-same db organization purchase now) refl refl
                            refl refl (omega arith))
                    ])
      ]

  or_winner-OnOk :
      (organization : ℕ) (session : Text) (otherwise : FulfillError)
      (r : Result FulfillError (Db × Order))
      → OnOk (IsSound now) r
      → OnOk (IsSound now) (or_winner db organization session otherwise r)
  or_winner-OnOk organization session otherwise (ok (db', o)) a = a
  or_winner-OnOk organization session otherwise (err FulfillError.integrity_error) a =
      elim (Option-cases (order_of_session db organization session)) [
        | inl nobody ↦ rw (nobody, OnOk) tt
        | inr (winner, e) ↦ rw (e, OnOk) v
      ]
  or_winner-OnOk organization session otherwise (err FulfillError.hold_gone) a = tt
  or_winner-OnOk organization session otherwise (err (FulfillError.availability_changed ids)) a = tt
  or_winner-OnOk organization session otherwise (err FulfillError.allocation_missing) a = tt
  or_winner-OnOk organization session otherwise (err FulfillError.donation_data) a = tt
  or_winner-OnOk organization session otherwise (err FulfillError.pass_data) a = tt
  or_winner-OnOk organization session otherwise (err FulfillError.tenant_mismatch) a = tt

  guarded :
      (b : Bool) (e : FulfillError) (r : Result FulfillError (Db × (Order × Bool)))
      → (b ≡ false → OnOk (IsSound now) r)
      → OnOk (IsSound now) (if b then err e else r)
  guarded true e r a = tt
  guarded false e r a = a refl

  hold-OnOk :
      (organization : ℕ) (hold_id : Option ℕ) (hold : Hold) (purchase : Purchase)
      → hold_of db organization hold_id ≡ some hold
      → leb hold.expires_at now ≡ false
      → OnOk (IsSound now) (fulfill_hold new_token db hold purchase now)
  hold-OnOk organization hold_id hold purchase found running =
      fulfill_hold-OnOk new_token now db hold purchase v (record {
        test = λ h. h.organization == organization && is_key hold_id h.id;
        found = found;
        active = ground (arith, running);
      })

  module _ (campaign_exists : ℕ → ℕ → Bool) (organization : ℕ) (s : Session) where
    dispatch-OnOk :
        (kind : SessionKind)
        → OnOk (IsSound now) (dispatch new_token campaign_exists db organization s kind now)
    unfolding dispatch
    dispatch-OnOk (SessionKind.donation none campaign) = tt
    dispatch-OnOk (SessionKind.donation (some amount) campaign) =
        or_winner-OnOk organization s.id FulfillError.integrity_error _ (
          donation-OnOk organization amount (campaign_of campaign_exists organization campaign)
            (purchase_of s))
    dispatch-OnOk (SessionKind.pass product) =
        elim (Option-cases (product_of db organization product)) [
          | inl missing ↦ rw (missing, OnOk, dispatch) tt
          | inr (p, found) ↦
              rw (found, OnOk, dispatch)
                (or_winner-OnOk organization s.id FulfillError.integrity_error _
                  (pass-OnOk organization p (purchase_of s)))
        ]
    dispatch-OnOk (SessionKind.tickets hold_id) =
        elim (Option-cases (hold_of db organization hold_id)) [
          | inl missing ↦ rw (missing, OnOk, dispatch) tt
          | inr (hold, found) ↦
              rw (found, OnOk, dispatch)
                (guarded (leb hold.expires_at now) FulfillError.hold_gone _ (λ running.
                  or_winner-OnOk organization s.id (FulfillError.availability_changed []) _
                    (hold-OnOk organization hold_id hold (purchase_of s) found running)))
        ]

    pub fulfill_checkout_session-OnOk :
        OnOk
          (IsSound now)
          (fulfill_checkout_session new_token campaign_exists db organization s now)
    unfolding fulfill_checkout_session
    fulfill_checkout_session-OnOk = elim (Option-cases (order_of_session db organization s.id)) [
      | inr (existing, e) ↦ rw (e, OnOk, fulfill_checkout_session) v
      | inl new ↦
          rw (new, OnOk, fulfill_checkout_session)
            (guarded (is_some s.organization_id && not (is_key s.organization_id organization))
              FulfillError.tenant_mismatch _ (λ _. dispatch-OnOk s.kind))
    ]
