-- ===== src/Inventory/PassRedemptions.antt =====
-- payments/services.py's fulfill_hold_with_pass keeps the inventory's invariant: a seat that a pass pays
-- for is as held, and then as sold, as any other.
use boxoffice.Guests.{get_or_create_for_email, record_marketing_opt_in}
use boxoffice.Payments.Fulfill.{create_order, order_clashes, fulfill_tickets, delete_hold}
use boxoffice.Payments.PassRedemption.{
  check_hold, check_redemption, fetch_pass, attach_holder, burn_credits, uses_of, record_uses,
  redemption_order, spend, fulfill_hold_with_pass, create_pass_payment, ticket_count,
}
use boxoffice.Inventory.{IsSound}
use boxoffice.Inventory.Same.{SameInventory, same-IsSound}
use boxoffice.Inventory.Sales.{IsLive}
use boxoffice.Inventory.Fulfilled.{fulfill_tickets-IsSound}
use boxoffice.Common.{
  ℕ, ◌+◌, ◌≡◌, refl, sym, subst, inl, inr, Bool, some, List, [], ◌∷◌, ◌++◌, arith, find_first,
  Bool-cases,
}
use boxoffice.Common.Text.{Text}
use boxoffice.Common.Results.{OnOk, Result-cases}
use boxoffice.Db.{Db, Hold, Order, PassPurchase, PassRedemption}

attach_holder-same :
    (db : Db) (hold : Hold) (p : PassPurchase) (email name : Text) (opt_in : Bool) (now : ℕ)
    → SameInventory db (attach_holder db hold p email name opt_in now).0
unfolding get_or_create_for_email record_marketing_opt_in
attach_holder-same db hold p email name opt_in now = record {
  performance = ground arith;
  allocations = ground arith;
  holds = ground arith;
  tickets = ground arith;
  next_id = ground arith;
}

-- The last writes leave the inventory alone, but for the hold.
paid-same :
    (db : Db) (hold : Hold) (order : Order) (p : PassPurchase) (rows : List PassRedemption)
    → SameInventory (delete_hold db hold) (
        delete_hold
          (create_pass_payment
            (burn_credits (record db { pass_redemptions = rows }) p (ticket_count hold))
            order
            p.id)
          hold)
unfolding create_pass_payment
paid-same db hold order p rows = record {
  performance = ground arith;
  allocations = ground arith;
  holds = ground arith;
  tickets = ground arith;
  next_id = ground arith;
}

module _ (new_token : ℕ → Text) (now : ℕ) (db : Db) (hold : Hold) (p : PassPurchase) (order : Order)
    (v : IsSound now db) (l : IsLive now db hold) where
  abbrev with_order : Db
  with_order = record db { orders = db.orders ++ order ∷ []; next_id = db.next_id + 1 }

  ordered : IsSound now with_order
  ordered =
      same-IsSound now db with_order
        (record {
          performance = refl;
          allocations = refl;
          holds = refl;
          tickets = refl;
          next_id = omega arith;
        })
        v

  ordered-IsLive : IsLive now with_order hold
  ordered-IsLive = record { test = l.test; found = l.found; active = l.active }

  pub spend-OnOk : OnOk (IsSound now) (spend new_token db hold p order)
  unfolding spend create_order
  spend-OnOk = elim (Bool-cases (order_clashes db order)) [
    | inl clash ↦ rw clash tt
    | inr new ↦ rw new (elim (Result-cases (fulfill_tickets new_token with_order hold order)) [
      | inl (failure, e) ↦ rw e tt
      | inr (minted, e) ↦
          rw e
            (elim (Result-cases
              (record_uses minted.pass_redemptions (uses_of minted hold order p))) [
                | inl (second, f) ↦ rw f tt
                | inr (rows, f) ↦ rw f (
                    same-IsSound now (delete_hold minted hold) _
                      (paid-same minted hold order p rows)
                      (fulfill_tickets-IsSound new_token now with_order hold order ordered
                        ordered-IsLive minted e))
              ])
    ])
  ]

module _ (new_token : ℕ → Text) (now : ℕ) (db : Db) (hold : Hold) (pass : ℕ) (email name : Text)
    (opt_in : Bool) (v : IsSound now db) (l : IsLive now db hold) where
  pub fulfill_hold_with_pass-OnOk :
      OnOk (IsSound now) (fulfill_hold_with_pass new_token db hold pass email name opt_in now)
  unfolding fulfill_hold_with_pass
  fulfill_hold_with_pass-OnOk = elim (Result-cases (check_hold hold now)) [
    | inl (failure, e) ↦ rw e tt
    | inr (u, e) ↦ rw e (elim (Result-cases (fetch_pass db pass)) [
      | inl (failure, f) ↦ rw f tt
      | inr (p, f) ↦ rw f (elim (Result-cases (check_redemption db hold p now)) [
        | inl (failure, g) ↦ rw g tt
        | inr (w, g) ↦
            let same = attach_holder-same db hold p email name opt_in now in
            let db' = (attach_holder db hold p email name opt_in now).0 in
            rw g (
              spend-OnOk new_token now db' hold p
                (redemption_order new_token db' hold email name
                  (attach_holder db hold p email name opt_in now).1)
                (same-IsSound now db db' same v)
                (record {
                  test = l.test;
                  found = subst (λ hs. find_first l.test hs ≡ some hold) (sym same.holds) l.found;
                  active = l.active;
                }))
      ])
    ])
  ]
