-- ===== src/Inventory/Counted/Placed.antt =====
-- payments/services.py's sales: fulfill_hold, fulfill_donation, fulfill_pass_purchase and
-- fulfill_hold_with_pass count every general-admission ticket that they mint as sold.
use boxoffice.Common.{
  ℕ, ◌+◌, ◌≡◌, refl, inl, inr, Bool, Option, some, List, [], ◌∷◌, ◌++◌, arith, leb, Bool-cases,
}
use boxoffice.Common.Int.{ℤ}
use boxoffice.Common.Text.{Text}
use boxoffice.Common.Results.{OnOk, Result-cases}
use boxoffice.Guests.{get_or_create_for_email, record_marketing_opt_in}
use boxoffice.Payments.Fulfill.{
  Purchase, create_order, order_clashes, order_of, attach_guest, link_guest, settle, delete_hold,
  fulfill_hold, fulfill_tickets,
}
use boxoffice.Payments.Purchases.{plain_order, fulfill_donation, fulfill_pass_purchase}
use boxoffice.Payments.PassRedemption.{
  check_hold, check_redemption, fetch_pass, attach_holder, redemption_order, burn_credits, uses_of,
  record_uses, spend, fulfill_hold_with_pass, create_pass_payment, ticket_count,
}
use boxoffice.Db.{Db, Hold, Order, PassProduct, PassPurchase, PassRedemption}
use boxoffice.Inventory.Counted.{
  IsCounted, SameSales, same-IsCounted, create-IsCounted, create-Owned,
}
use boxoffice.Inventory.Counted.Sold.{fulfill_tickets-IsCounted}

link_guest-same :
    (db : Db) (organization : ℕ) (purchase : Purchase) (now : ℕ)
    → SameSales db (link_guest db organization purchase now).0
unfolding get_or_create_for_email record_marketing_opt_in
link_guest-same db organization purchase now = record {
  allocations = ground arith;
  tickets = ground arith;
  orders = ground arith;
  next_id = ground arith;
}

attach_holder-same :
    (db : Db) (hold : Hold) (p : PassPurchase) (email name : Text) (opt_in : Bool) (now : ℕ)
    → SameSales db (attach_holder db hold p email name opt_in now).0
unfolding get_or_create_for_email record_marketing_opt_in
attach_holder-same db hold p email name opt_in now = record {
  allocations = ground arith;
  tickets = ground arith;
  orders = ground arith;
  next_id = ground arith;
}

settle-same :
    (db : Db) (hold : Hold) (order : Order) (purchase : Purchase)
    → SameSales db (settle db hold order purchase)
settle-same db hold order purchase = record {
  allocations = ground arith;
  tickets = ground arith;
  orders = ground arith;
  next_id = ground arith;
}

paid-same :
    (db : Db) (hold : Hold) (order : Order) (p : PassPurchase) (rows : List PassRedemption)
    → SameSales db (
        delete_hold
          (create_pass_payment
            (burn_credits (record db { pass_redemptions = rows }) p (ticket_count hold))
            order
            p.id)
          hold)
unfolding create_pass_payment
paid-same db hold order p rows = record {
  allocations = ground arith;
  tickets = ground arith;
  orders = ground arith;
  next_id = ground arith;
}

abbrev with_order : Db → Order → Db
with_order db order = record db { orders = db.orders ++ order ∷ []; next_id = db.next_id + 1 }

module _ (new_token : ℕ → Text) (now : ℕ) (db : Db) (c : IsCounted db) where
  linked :
      (organization : ℕ) (purchase : Purchase)
      → IsCounted (link_guest db organization purchase now).0
  linked organization purchase =
      same-IsCounted db (link_guest db organization purchase now).0
        (link_guest-same db organization purchase now) c

  pub donation-IsCounted :
      (organization : ℕ) (amount : ℤ) (campaign : Option ℕ) (purchase : Purchase)
      → OnOk IsCounted (fulfill_donation new_token db organization amount campaign purchase now)
  unfolding fulfill_donation create_order
  donation-IsCounted organization amount campaign purchase =
      let guested = (link_guest db organization purchase now).0 in
      let order =
        plain_order new_token guested organization purchase
          (link_guest db organization purchase now).1 amount in
      elim (Bool-cases (order_clashes guested order)) [
        | inl taken ↦ rw taken tt
        | inr free ↦ rw free (
            same-IsCounted (with_order guested order) _
              (record { allocations = refl; tickets = refl; orders = refl; next_id = omega arith })
              (create-IsCounted guested order refl (linked organization purchase)))
      ]

  pub pass-IsCounted :
      (organization : ℕ) (product : PassProduct) (purchase : Purchase)
      → OnOk IsCounted (fulfill_pass_purchase new_token db organization product purchase now)
  unfolding fulfill_pass_purchase create_order
  pass-IsCounted organization product purchase =
      let guested = (link_guest db organization purchase now).0 in
      let order =
        plain_order new_token guested organization purchase
          (link_guest db organization purchase now).1 product.price in
      elim (Bool-cases product.is_active) [
        | inr archived ↦ rw archived tt
        | inl active ↦ rw active (elim (Bool-cases (order_clashes guested order)) [
          | inl taken ↦ rw taken tt
          | inr free ↦ rw free (
              same-IsCounted (with_order guested order) _
                (record {
                  allocations = refl;
                  tickets = refl;
                  orders = refl;
                  next_id = omega arith;
                })
                (create-IsCounted guested order refl (linked organization purchase)))
        ])
      ]

  pub fulfill_hold-IsCounted :
      (hold : Hold) (purchase : Purchase)
      → OnOk IsCounted (fulfill_hold new_token db hold purchase now)
  unfolding fulfill_hold create_order
  fulfill_hold-IsCounted hold purchase =
      let guested = (attach_guest db hold purchase now).0 in
      let order =
        order_of new_token db guested hold purchase (attach_guest db hold purchase now).1 in
      let here = linked hold.organization purchase in
      elim (Bool-cases (leb hold.expires_at now)) [
        | inl expired ↦ rw expired tt
        | inr running ↦ rw running (elim (Bool-cases (order_clashes guested order)) [
          | inl taken ↦ rw taken tt
          | inr new ↦
              rw new
                (elim (Result-cases
                  (fulfill_tickets new_token (with_order guested order) hold order)) [
                    | inl (failure, e) ↦ rw e tt
                    | inr (minted, e) ↦ rw e (
                        same-IsCounted minted (settle minted hold order purchase)
                          (settle-same minted hold order purchase)
                          (fulfill_tickets-IsCounted new_token hold order (with_order guested order)
                            minted (create-IsCounted guested order refl here)
                            (create-Owned guested order hold.performance refl refl here) e))
                  ])
        ])
      ]

  spend-IsCounted :
      (hold : Hold) (p : PassPurchase) (order : Order)
      → order.id ≡ db.next_id
      → order.performance ≡ some hold.performance
      → OnOk IsCounted (spend new_token db hold p order)
  unfolding spend create_order
  spend-IsCounted hold p order fresh of_performance = elim (Bool-cases (order_clashes db order)) [
    | inl clash ↦ rw clash tt
    | inr new ↦
        rw new (elim (Result-cases (fulfill_tickets new_token (with_order db order) hold order)) [
          | inl (failure, e) ↦ rw e tt
          | inr (minted, e) ↦
              rw e
                (elim (Result-cases
                  (record_uses minted.pass_redemptions (uses_of minted hold order p))) [
                    | inl (second, f) ↦ rw f tt
                    | inr (rows, f) ↦ rw f (
                        same-IsCounted minted _ (paid-same minted hold order p rows) (
                          fulfill_tickets-IsCounted new_token hold order (with_order db order)
                            minted (create-IsCounted db order fresh c)
                            (create-Owned db order hold.performance fresh of_performance c) e))
                  ])
        ])
  ]

module _ (new_token : ℕ → Text) (now : ℕ) (db : Db) (c : IsCounted db) where
  pub fulfill_hold_with_pass-IsCounted :
      (hold : Hold) (pass : ℕ) (email name : Text) (opt_in : Bool)
      → OnOk IsCounted (fulfill_hold_with_pass new_token db hold pass email name opt_in now)
  unfolding fulfill_hold_with_pass
  fulfill_hold_with_pass-IsCounted hold pass email name opt_in =
      elim (Result-cases (check_hold hold now)) [
        | inl (failure, e) ↦ rw e tt
        | inr (u, e) ↦ rw e (elim (Result-cases (fetch_pass db pass)) [
          | inl (failure, f) ↦ rw f tt
          | inr (p, f) ↦ rw f (elim (Result-cases (check_redemption db hold p now)) [
            | inl (failure, g) ↦ rw g tt
            | inr (w, g) ↦
                let (db', guest) = attach_holder db hold p email name opt_in now in
                rw g (
                  spend-IsCounted new_token now db'
                    (same-IsCounted db db' (attach_holder-same db hold p email name opt_in now) c)
                    hold p (redemption_order new_token db' hold email name guest) refl refl)
          ])
        ])
      ]
