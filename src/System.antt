-- ===== src/System.antt =====
-- The box office as a whole: the transactions of orders/services.py, payments/services.py and
-- scanning/services.py, one after another in the order in which they commit, with any time between
-- two of them. A call that raises leaves no step, as it is rolled back.

pub mod Reachable
use boxoffice.Orders.Holds.{
  set_ga_hold, set_reserved_hold, release_hold, release_hold_by_id, HoldError,
}
use boxoffice.Orders.Cart.{
  apply_promo_code, remove_promo_code, set_hold_donation, clear_hold_donation,
}
use boxoffice.Orders.Void.{void_order}
use boxoffice.Payments.Fulfill.{Purchase, fulfill_hold}
use boxoffice.Scanning.{redeem_ticket}
use boxoffice.Payments.Checkout.{Session, fulfill_checkout_session}
use boxoffice.Payments.PassRedemption.{fulfill_hold_with_pass}
use boxoffice.Payments.Refund.{refund_order}
use boxoffice.Common.{
  ℕ, zero, suc, ◌+◌, ◌-◌, ◌*◌, ◌/◌, ◌%◌, ◌≤◌, ◌<◌, ◌≡◌, refl, sym, ap, subst, ◌∙◌, ◌≢◌, ◌⊎◌, inl,
  inr, ◌↔◌, Bool, true, false, not, ◌&&◌, ◌||◌, Option, none, some, List, [], ◌∷◌, ◌++◌, map, arith,
  ltb, leb, ◌==◌, if◌then◌else◌, ltb→lt, lt→ltb, leb→le, ==_iff, ==_refl, &&_split, Bool-cases,
  Option-cases, is_key, is_some, or_else, length, select, find_first, any, update_where, sum_by,
  All, contains, replicate, order_by, count_by, is_empty, insert_by,
}
use boxoffice.Common.Int.{
  ℤ, pos, negsuc, pos_part, neg_part, sub_ℕ, ◌+ℤ◌, ◌-ℤ◌, ◌≤ℤ◌, ltb_ℤ, leb_ℤ, scale, max_ℤ, min_ℤ,
  +ℤ_parts, -ℤ_parts, scale_parts, eq_of_parts, int_laws,
}
use boxoffice.Common.Text.{Text, codes, lower, text_eq, is_blank, upper, strip, text_eq_iff}
use boxoffice.Common.Results.{
  Result, ok, err, ◌>>=◌, ◌>>◌, raise_if, bind_ok, OnOk, OnOk-ok, ok-injective, err-ne-ok,
  Result-cases,
}
use boxoffice.Db.{
  Db, Organization, Performance, Section, Seat, PriceTier, PricingZone, GaAllocation, HoldSeat,
  Hold, SeatBlock, OrderStatus, Order, ItemKind, OrderItem, TicketStatus, Ticket, PaymentStatus,
  Payment, GuestAccount, PassKind, PassStatus, PassProduct, PassPurchase, PassRedemption, is_void,
}

-- The tables at an instant.
pub record State : Type 0 where
  pub now : ℕ
  pub db : Db

abbrev pub at : State → Db → State
at s db = record s { db = db }

module _ (new_token : ℕ → Text) (secret_key : Text) (hmac_sha256 : Text → Text → List ℕ)
    (campaign_exists : ℕ → ℕ → Bool) (stripe_refund : Text → Option Text) where
  -- A request comes with its own theater and session, and may name any performance of that theater,
  -- any hold, order or code.
  pub data Step (s : State) : State → Type 0 where
    time : (later : ℕ) → s.now ≤ later → Step s (record s { now = later })
    held_ga :
        (organization : ℕ) (performance : Performance) (key : ℕ) (user : Option ℕ)
        (tier : PriceTier) (quantity : ℕ) {db : Db} {hold : Option Hold}
        → organization ≡ (s.db.performance performance.id).organization
        → set_ga_hold s.db organization performance key user tier quantity s.now ≡ ok (db, hold)
        → Step s (at s db)
    held_reserved :
        (organization : ℕ) (performance : Performance) (key : ℕ) (user : Option ℕ)
        (seat_ids : List ℕ) {db : Db} {hold : Option Hold}
        → organization ≡ (s.db.performance performance.id).organization
        → set_reserved_hold s.db organization performance key user seat_ids s.now ≡ ok (db, hold)
        → Step s (at s db)
    released :
        (organization performance key : ℕ)
        → Step s (at s (release_hold s.db organization performance key))
    released_by_id :
        (organization key : ℕ) (hold_id : Option ℕ)
        → Step s (at s (release_hold_by_id s.db organization key hold_id))
    promo_applied :
        (organization key : ℕ) (hold_id : Option ℕ) (code : Option Text) {db : Db} {hold : Hold}
        → apply_promo_code s.db organization key hold_id code s.now ≡ ok (db, hold)
        → Step s (at s db)
    promo_removed :
        (organization key : ℕ) (hold_id : Option ℕ)
        → Step s (at s (remove_promo_code s.db organization key hold_id))
    donation_set :
        (organization key : ℕ) (hold_id : Option ℕ) (amount : Option ℤ) (campaign : Option ℕ)
        {db : Db} {hold : Hold}
        → set_hold_donation s.db organization key hold_id amount campaign s.now ≡ ok (db, hold)
        → Step s (at s db)
    donation_cleared :
        (organization key : ℕ) (hold_id : Option ℕ)
        → Step s (at s (clear_hold_donation s.db organization key hold_id))
    -- The caller has found the hold by some query, as it has the order of `voided` below.
    fulfilled :
        (test : Hold → Bool) (hold : Hold) (purchase : Purchase) {db : Db} {order : Order}
        → find_first test s.db.holds ≡ some hold
        → fulfill_hold new_token s.db hold purchase s.now ≡ ok (db, order)
        → Step s (at s db)
    checked_out :
        (organization : ℕ) (session : Session) {db : Db} {order : Order} {created : Bool}
        → fulfill_checkout_session new_token campaign_exists s.db organization session s.now
          ≡ ok (db, (order, created))
        → Step s (at s db)
    pass_redeemed :
        (test : Hold → Bool) (hold : Hold) (pass : ℕ) (email name : Text) (opt_in : Bool) {db : Db}
        {order : Order}
        → find_first test s.db.holds ≡ some hold
        → fulfill_hold_with_pass new_token s.db hold pass email name opt_in s.now ≡ ok (db, order)
        → Step s (at s db)
    refunded :
        (order : ℕ) {db : Db} {done : Bool}
        → refund_order stripe_refund s.db order ≡ ok (db, done)
        → Step s (at s db)
    voided :
        (test : Order → Bool) (order : Order)
        → find_first test s.db.orders ≡ some order
        → Step s (at s (void_order s.db order).0)
    scanned :
        (organization : ℕ) (token : Text) (sig : Option Text) (scanned_by : ℕ)
        → Step s (
            at s
              (redeem_ticket secret_key hmac_sha256 s.db organization token sig scanned_by s.now).0)

  pub data Run (start : State) : State → Type 0 where
    begin : Run start start
    then : {s t : State} → Run start s → Step s t → Run start t
