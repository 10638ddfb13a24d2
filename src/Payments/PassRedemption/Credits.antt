-- ===== src/Payments/PassRedemption/Credits.antt =====
-- payments/services.py's fulfill_hold_with_pass keeps the entitlements of every pass: the credits that
-- it burns are the tickets that it mints, and a season pass is used up for the event.
use boxoffice.Payments.PassRedemption.Checked.{
  Entitled-same, IsMetered-by, attach_holder-SamePasses, enough_credits, fetch_pass_ok, none_of,
  nonempty, same_ids, then_ok,
}
use boxoffice.Payments.PassRedemption.Used.{
  IsUsed, IsUsed-same, burned-rows, refuse, season-used, season_use,
}
use boxoffice.Common.Counting.{any-append, any_mono}
use boxoffice.Common.Updates.{only, count_by-update}
use boxoffice.Passes.{credits_for, is_flex}
use boxoffice.Passes.Balance.{IsMetered, Entitled}
use boxoffice.Payments.Fulfill.{create_order, order_clashes, delete_hold, fulfill_tickets}
use boxoffice.Payments.PassRedemption.{
  is_season_use, is_used_for, ticket_count, credits, check_hold, check_redemption, fetch_pass,
  attach_holder, redemption_order, burn, burn_credits, uses_of, record_uses, spend,
  fulfill_hold_with_pass, create_pass_payment,
}
use boxoffice.Payments.PassRedemption.Minted.{is_of, MintsFor, fulfill_tickets-MintsFor}
use boxoffice.Payments.PassRedemption.Uses.{record_uses_lem, credits_for-append, credits_for-uses}
use boxoffice.Payments.PassRedemption.Burn.{burned-all, untouched-all, length-select}
use boxoffice.Common.{
  ℕ, ◌+◌, ◌-◌, ◌≤◌, ◌<◌, ◌≡◌, refl, sym, subst, ◌∙◌, inl, inr, Bool, true, false, some, List, [],
  ◌∷◌, any, ◌≢◌, ◌++◌, arith, ◌==◌, ==_refl, Bool-cases, length, select, find_first, update_where,
  All, count_by,
}
use boxoffice.Common.Text.{Text}
use boxoffice.Common.Results.{ok, bind_ok, OnOk, OnOk-ok, ok-injective, Result-cases}
use boxoffice.Db.{Db, Hold, Order, Ticket, PassPurchase, PassRedemption}

module _ (new_token : ℕ → Text) (db : Db) (hold : Hold) (p : PassPurchase) (order : Order)
    (v : Entitled db) (k : ℕ) (found : find_first (λ q. q.id == k) db.pass_purchases ≡ some p)
    (fresh : count_by (is_of order) db.tickets ≡ 0)
    (enough : is_flex p.kind ≡ true → ticket_count hold ≤ credits p)
    (some_seat : ticket_count hold ≢ 0) where
  abbrev with_order : Db
  with_order = record db { orders = db.orders ++ order ∷ []; next_id = db.next_id + 1 }

  module _ (minted : Db) (m : MintsFor new_token hold order (ticket_count hold) with_order minted)
      (rows : List PassRedemption)
      (recorded : record_uses minted.pass_redemptions (uses_of minted hold order p) ≡ ok rows) where
    abbrev tickets : List Ticket
    tickets = select (is_of order) minted.tickets

    length-tickets : length tickets ≡ ticket_count hold
    length-tickets = omega (arith, length-select (is_of order) minted.tickets, m.tickets, fresh)

    base : Entitled minted
    base = Entitled-same db minted m.pass_purchases m.pass_redemptions v

    same_pass : All (λ q. (q.id == p.id) ≡ true → q ≡ p) db.pass_purchases
    same_pass =
        only (λ q. q.id == k) (λ q. q.id == p.id) db.pass_purchases p found (==_refl p.id)
          (v.pass_once p.id)

    spent :
        Entitled (burn_credits (record minted { pass_redemptions = rows }) p (ticket_count hold))
    spent =
        let (all, once) =
          record_uses_lem minted.pass_redemptions (uses_of minted hold order p) recorded
            base.season_once in
        elim (Bool-cases (is_flex p.kind)) [
          | inl flex ↦ rw flex (record {
            metered = IsMetered-by _ all (
                subst
                  (λ n.
                    All (IsMetered (minted.pass_redemptions ++ uses_of minted hold order p)) (
                      update_where (λ q. q.id == p.id) (burn (credits p - n))
                        minted.pass_purchases))
                  length-tickets
                  (burned-all minted hold order p tickets minted.pass_redemptions
                    minted.pass_purchases flex (omega (arith, length-tickets, enough flex))
                    (rw m.pass_purchases same_pass) base.metered));
            season_once = once;
            pass_once = λ k.
                rw
                  (count_by-update (λ q. q.id == p.id) (burn (credits p - ticket_count hold))
                    (λ q. q.id == k) minted.pass_purchases
                    (same_ids p k (credits p - ticket_count hold) minted.pass_purchases))
                  (base.pass_once k);
          })
          | inr season ↦ rw season (record {
            metered = IsMetered-by _ all (
                untouched-all minted hold order p tickets minted.pass_redemptions
                  minted.pass_purchases season base.metered);
            season_once = once;
            pass_once = base.pass_once;
          })
        ]

    all_uses : minted.pass_redemptions ++ uses_of minted hold order p ≡ rows
    all_uses =
        (record_uses_lem minted.pass_redemptions (uses_of minted hold order p) recorded
          base.season_once).0

    abbrev event : ℕ
    event = (db.performance hold.performance).event

    same_event : (minted.performance hold.performance).event ≡ event
    same_event = rw m.performance refl

    used_season : is_flex p.kind ≡ false → any (is_season_use p.id event) rows ≡ true
    used_season is =
        subst (λ rs. any (is_season_use p.id event) rs ≡ true) all_uses
          (rw
            (any-append (is_season_use p.id event) minted.pass_redemptions
              (uses_of minted hold order p))
            (ground (
              arith,
              is,
              season_use minted hold order p event same_event tickets
                  (λ e. some_seat (sym length-tickets ∙ e)),
            )))

    used_flex :
        is_flex p.kind ≡ true
        → credits_for p.id rows ≡ credits_for p.id db.pass_redemptions + ticket_count hold
    used_flex is =
        subst (λ rs. credits_for p.id rs ≡ credits_for p.id db.pass_redemptions + ticket_count hold)
          all_uses
          (rw
            (
              credits_for-append p.id minted.pass_redemptions (uses_of minted hold order p),
              is,
              credits_for-uses minted hold order p p.id 1 tickets,
              ==_refl p.id,
              length-tickets,
              m.pass_redemptions,
            )
            (omega arith))

    noted : (db' : Db) → db'.pass_redemptions ≡ rows → IsUsed db db' hold p
    noted db' same = record {
      flex = λ is. rw same (used_flex is);
      season = λ is. rw same (used_season is);
      refused = λ is n. refuse db' p event n is (
          any_mono (is_season_use p.id event) (is_used_for p.id event) db'.pass_redemptions
            (season-used p.id event db'.pass_redemptions) (rw same (used_season is)));
    }

    settled :
        Entitled (
          delete_hold
            (create_pass_payment
              (burn_credits (record minted { pass_redemptions = rows }) p (ticket_count hold))
              order
              p.id)
            hold)
        × IsUsed db
            (delete_hold
              (create_pass_payment
                (burn_credits (record minted { pass_redemptions = rows }) p (ticket_count hold))
                order
                p.id)
              hold)
            hold
            p
    unfolding create_pass_payment
    settled = (
      record {
        metered = spent.metered;
        season_once = spent.season_once;
        pass_once = spent.pass_once;
      },
      noted _ (burned-rows (record minted { pass_redemptions = rows }) p (ticket_count hold)),
    )

  spend-OnOk : OnOk (λ db'. Entitled db' × IsUsed db db' hold p) (spend new_token db hold p order)
  unfolding spend create_order create_pass_payment
  spend-OnOk = elim (Bool-cases (order_clashes db order)) [
    | inl clash ↦ rw clash tt
    | inr new ↦ rw new (elim (Result-cases (fulfill_tickets new_token with_order hold order)) [
      | inl (failure, e) ↦ rw e tt
      | inr (minted, e) ↦
          let m = fulfill_tickets-MintsFor new_token hold order with_order minted e in
          rw e
            (elim (Result-cases
              (record_uses minted.pass_redemptions (uses_of minted hold order p))) [
                | inl (second, f) ↦ rw f tt
                | inr (rows, f) ↦ rw f (settled minted m rows f)
              ])
    ])
  ]

-- The entitlements of every pass survive a redemption: the credits left and used on a flex pass still
-- add up to those sold, and a season pass has at most one use for an event, if no ticket has the pk of
-- an order that is still to come. The pass that is redeemed has used one credit more for each ticket of
-- the hold, or, if it is a season pass, has now its use for the event, and then no number of further
-- seats of the event passes the check of its budget.
pub fulfill_hold_with_pass-Entitled :
    (new_token : ℕ → Text) (db : Db) (hold : Hold) (pass : ℕ) (email name : Text) (opt_in : Bool)
    (now : ℕ) {db' : Db} {order : Order}
    → Entitled db
    → All (λ t. t.order < db.next_id) db.tickets
    → fulfill_hold_with_pass new_token db hold pass email name opt_in now ≡ ok (db', order)
    → Entitled db' × ((p : PassPurchase) → fetch_pass db pass ≡ ok p → IsUsed db db' hold p)
unfolding fulfill_hold_with_pass
fulfill_hold_with_pass-Entitled new_token db hold pass email name opt_in now {db' = db'} v below e =
    let (c, e₁) = then_ok (check_hold hold now) _ e in
    let (p, f, e₂) = bind_ok (fetch_pass db pass) _ e₁ in
    let (d, e₃) = then_ok (check_redemption db hold p now) _ e₂ in
    let (db₁, guest) = attach_holder db hold p email name opt_in now in
    let order = redemption_order new_token db₁ hold email name guest in
    let same = attach_holder-SamePasses db hold p email name opt_in now in
    let (entitled, used) =
      OnOk-ok (λ db'. Entitled db' × IsUsed db₁ db' hold p) _
        (spend-OnOk new_token db₁ hold p order
          (Entitled-same db db₁ same.pass_purchases same.pass_redemptions v) pass
          (rw same.pass_purchases (fetch_pass_ok db pass f))
          (rw same.tickets (none_of db.next_id db.tickets below order same.next_id))
          (enough_credits db hold p now d) (nonempty db hold p now d))
        e₃ in
    (
      entitled,
      λ q is.
          subst (λ q. IsUsed db db' hold q) (ok-injective (sym f ∙ is))
            (IsUsed-same db db₁ db' hold p same used),
    )
