-- ===== src/Payments/PassRedemption.antt =====
-- payments/services.py's fulfill_hold_with_pass: a pass is spent on the seats of a hold. The pass is
-- named by its pk, as the call fetches it again under its lock.

pub mod Minted
pub mod Uses
pub mod Burn
pub mod Checked
pub mod Used
pub mod Credits
use boxoffice.Common.Results.{map_err}
use boxoffice.Guests.{get_or_create_for_email, record_marketing_opt_in}
use boxoffice.Orders.Money.{ga_parts, hold_donation}
use boxoffice.Orders.Availability.{find_last}
use boxoffice.Payments.Fulfill.{FulfillError, create_order, fulfill_tickets, delete_hold, guest_id}
use boxoffice.Passes.{is_flex, pass_covers_performance, redeemable_now}
use boxoffice.Common.Decimal.{decimal}
use boxoffice.Common.{
  ℕ, ◌-◌, Bool, true, false, not, ◌&&◌, ◌||◌, Option, none, some, List, [], ◌∷◌, ◌++◌, map, ltb,
  leb, ◌==◌, if◌then◌else◌, is_key, is_some, or_else, length, select, find_first, any, update_where,
}
use boxoffice.Common.Int.{ℤ, pos, ltb_ℤ}
use boxoffice.Common.Text.{Text, codes, is_blank}
use boxoffice.Common.Results.{Result, ok, err, ◌>>=◌, ◌>>◌, raise_if}
use boxoffice.Db.{
  Db, Hold, OrderStatus, Order, OrderItem, Ticket, PaymentStatus, GuestAccount, PassStatus,
  PassPurchase, PassRedemption,
}

pub data RedeemError : Type 0 where
  hold_gone has_promo has_donation pass_missing other_tenant not_active not_covered : RedeemError
  nothing_to_redeem too_few_credits one_seat_per_show already_used : RedeemError
  fulfillment : FulfillError → RedeemError

abbrev pub ticket_count : Hold → ℕ
ticket_count hold = elim (ga_parts hold) [ some (tier, q) ↦ q | none ↦ length hold.hold_seats ]

abbrev pub credits : PassPurchase → ℕ
credits p = or_else p.credits_remaining 0

abbrev pub is_used_for : ℕ → ℕ → PassRedemption → Bool
is_used_for pass event r = r.pass_purchase == pass && r.event == event

-- The budget of admissions, for either kind of pass.
abbrev pub check_budget : Db → PassPurchase → ℕ → ℕ → Result RedeemError (Unit {0})
check_budget db p event n =
    if is_flex p.kind
    then raise_if (ltb (credits p) n) RedeemError.too_few_credits
    else if not (n == 1)
    then err RedeemError.one_seat_per_show
    else raise_if (any (is_used_for p.id event) db.pass_redemptions) RedeemError.already_used

abbrev pub holder : Db → Hold → PassPurchase → Text → Text → Db × Option GuestAccount
holder db hold p buyer_email buyer_name = elim p.guest [
  | some k ↦ (db, find_first (λ g. g.id == k) db.guests)
  | none ↦
      let (db', guest, created) =
        get_or_create_for_email db hold.organization (some buyer_email) buyer_name in
      (db', guest)
]

-- The pass's own guest, else the one of the buyer's email, with the consent that the buyer gave.
abbrev pub attach_holder :
    Db → Hold → PassPurchase → Text → Text → Bool → ℕ → Db × Option GuestAccount
attach_holder db hold p buyer_email buyer_name marketing_opt_in now =
    let (db', guest) = holder db hold p buyer_email buyer_name in
    (if marketing_opt_in then record_marketing_opt_in db' guest now else db', guest)

abbrev pub redemption_order : (ℕ → Text) → Db → Hold → Text → Text → Option GuestAccount → Order
redemption_order new_token db hold buyer_email buyer_name guest = record {
  id = db.next_id;
  organization = hold.organization;
  performance = some hold.performance;
  buyer_email = buyer_email;
  buyer_name = buyer_name;
  guest = guest_id guest;
  promo_code_text = [];
  discount_amount = pos 0;
  total = pos 0;
  status = OrderStatus.paid;
  stripe_checkout_session_id = none;
  token = new_token db.next_id;
}

abbrev unit_or_zero : Option OrderItem → ℤ
unit_or_zero none = pos 0
unit_or_zero (some item) = item.unit_amount

-- What the ticket would have cost: the amount of its seat's line, or of the order's last line without
-- a seat.
abbrev pub face_value : List OrderItem → Ticket → ℤ
face_value items t = elim t.seat [
  | none ↦ unit_or_zero (find_last (λ i. not (is_some i.seat)) items)
  | some s ↦ unit_or_zero (find_last (λ i. is_key i.seat s) items)
]

abbrev pub new_redemption : Db → Hold → Order → PassPurchase → ℕ → Ticket → PassRedemption
new_redemption db hold order p credits_used t = record {
  organization = hold.organization;
  pass_purchase = p.id;
  order = order.id;
  ticket = t.id;
  performance = hold.performance;
  event = (db.performance hold.performance).event;
  seat = t.seat;
  face_value = face_value (select (λ i. i.order == order.id) db.items) t;
  credits_used = credits_used;
}

-- unique_season_event_redemption
abbrev pub is_season_use : ℕ → ℕ → PassRedemption → Bool
is_season_use pass event r = r.pass_purchase == pass && r.event == event && r.credits_used == 0

abbrev pub is_second_use : List PassRedemption → PassRedemption → Bool
is_second_use rows r = r.credits_used == 0 && any (is_season_use r.pass_purchase r.event) rows

-- The loop over the order's tickets.
unfoldable pub record_uses :
    List PassRedemption → List PassRedemption → Result RedeemError (List PassRedemption)
record_uses rows [] = ok rows
record_uses rows (r ∷ new) = elim (is_second_use rows r) [
  | true ↦ err RedeemError.already_used
  | false ↦ record_uses (rows ++ r ∷ []) new
]

abbrev pub burn : ℕ → PassPurchase → PassPurchase
burn left p = record p {
  credits_remaining = some left;
  status = if left == 0 then PassStatus.exhausted else p.status;
}

abbrev pub burn_credits : Db → PassPurchase → ℕ → Db
burn_credits db p n =
    if is_flex p.kind
    then record db {
      pass_purchases = update_where (λ q. q.id == p.id) (burn (credits p - n)) db.pass_purchases;
    }
    else db

unfoldable pub create_pass_payment : Db → Order → ℕ → Db
unfolding decimal
create_pass_payment db order pass = record db {
  payments =
      db.payments
      ++ record {
        order = order.id;
        provider = codes "pass";
        amount = pos 0;
        status = PaymentStatus.succeeded;
        provider_ref = codes "pass-" ++ decimal pass;
      }
        ∷ [];
}

-- The tests before anything is written.
unfoldable pub check_redemption : Db → Hold → PassPurchase → ℕ → Result RedeemError (Unit {0})
check_redemption db hold p now = do
  raise_if (not (p.organization == hold.organization)) RedeemError.other_tenant
  raise_if (not (redeemable_now p now)) RedeemError.not_active
  raise_if (not (pass_covers_performance p (db.performance hold.performance)))
      RedeemError.not_covered
  raise_if (ticket_count hold == 0) RedeemError.nothing_to_redeem
  check_budget db p (db.performance hold.performance).event (ticket_count hold)

-- A hold with a promo code or a gift is not redeemed.
unfoldable pub check_hold : Hold → ℕ → Result RedeemError (Unit {0})
check_hold hold now = do
  raise_if (leb hold.expires_at now) RedeemError.hold_gone
  raise_if (is_some hold.promo_code || not (is_blank hold.promo_code_text)) RedeemError.has_promo
  raise_if (ltb_ℤ (pos 0) (hold_donation hold)) RedeemError.has_donation

abbrev pub fetch_pass : Db → ℕ → Result RedeemError PassPurchase
fetch_pass db pass = elim (find_first (λ q. q.id == pass) db.pass_purchases) [
  | none ↦ err RedeemError.pass_missing
  | some p ↦ ok p
]

abbrev pub uses_of : Db → Hold → Order → PassPurchase → List PassRedemption
uses_of db hold order p =
    map (new_redemption db hold order p (if is_flex p.kind then 1 else 0))
      (select (λ t. t.order == order.id) db.tickets)

module _ (new_token : ℕ → Text) where
  -- Once the tests have passed.
  unfoldable pub spend : Db → Hold → PassPurchase → Order → Result RedeemError (Db × Order)
  unfolding fulfill_tickets create_order create_pass_payment
  spend db hold p order = do
    with_order ← map_err RedeemError.fulfillment (create_order db order)
    minted ← map_err RedeemError.fulfillment (fulfill_tickets new_token with_order hold order)
    rows ← record_uses minted.pass_redemptions (uses_of minted hold order p)
    let used = record minted { pass_redemptions = rows }
    let paid = create_pass_payment (burn_credits used p (ticket_count hold)) order p.id
    ok (delete_hold paid hold, order)

  unfoldable pub fulfill_hold_with_pass :
      Db → Hold → ℕ → Text → Text → Bool → ℕ → Result RedeemError (Db × Order)
  unfolding check_hold check_redemption spend
  fulfill_hold_with_pass db hold pass buyer_email buyer_name marketing_opt_in now = do
    check_hold hold now
    p ← fetch_pass db pass
    check_redemption db hold p now
    let (db', guest) = attach_holder db hold p buyer_email buyer_name marketing_opt_in now
    spend db' hold p (redemption_order new_token db' hold buyer_email buyer_name guest)
