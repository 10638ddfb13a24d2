-- ===== src/Payments/Refund.antt =====
-- payments/services.py's refund_order. Stripe's Refund.create is a parameter: the refund's id for a
-- PaymentIntent, or nothing where Stripe rejects it.

pub mod Once
use boxoffice.Orders.Void.{void_order}
use boxoffice.Passes.{restore_redemptions_for_order}
use boxoffice.Payments.Fulfill.{Purchase}
use boxoffice.Common.{
  ℕ, zero, suc, ◌+◌, ◌-◌, ◌*◌, ◌/◌, ◌%◌, ◌≤◌, ◌<◌, ◌≡◌, refl, sym, ap, subst, ◌∙◌, ◌≢◌, ◌⊎◌, inl,
  inr, ◌↔◌, Bool, true, false, not, ◌&&◌, ◌||◌, Option, none, some, List, [], ◌∷◌, ◌++◌, map, arith,
  ltb, leb, ◌==◌, if◌then◌else◌, ltb→lt, lt→ltb, leb→le, ==_iff, ==_refl, &&_split, Bool-cases,
  Option-cases, is_key, is_some, or_else, length, select, find_first, any, update_where, sum_by,
  All, contains, replicate, order_by, count_by, is_empty, insert_by,
}
use boxoffice.Common.Int.{
  ℤ, pos, negsuc, pos_part, neg_part, sub_ℕ, ◌+ℤ◌, ◌-ℤ◌, ◌≤ℤ◌, ltb_ℤ, leb_ℤ, scale, max_ℤ, min_ℤ,
  +ℤ_parts, -ℤ_parts, scale_parts, eq_of_parts, int_laws,
}
use boxoffice.Common.Text.{Text, codes, lower, text_eq, is_blank, upper, strip, text_eq_iff}
use boxoffice.Common.Results.{
  Result, ok, err, ◌>>=◌, ◌>>◌, raise_if, bind_ok, OnOk, OnOk-ok, ok-injective, err-ne-ok,
  Result-cases,
}
use boxoffice.Db.{
  Db, Organization, Performance, Section, Seat, PriceTier, PricingZone, GaAllocation, HoldSeat,
  Hold, SeatBlock, OrderStatus, Order, ItemKind, OrderItem, TicketStatus, Ticket, PaymentStatus,
  Payment, GuestAccount, PassKind, PassStatus, PassProduct, PassPurchase, PassRedemption, is_void,
}

pub data RefundError : Type 0 where
  no_order pass_used no_payment_intent rejected : RefundError

abbrev pub is_paid : OrderStatus → Bool
is_paid OrderStatus.paid = true
is_paid other = false

abbrev pub is_succeeded : PaymentStatus → Bool
is_succeeded PaymentStatus.succeeded = true
is_succeeded PaymentStatus.refunded = false

abbrev pub is_pass_item : ItemKind → Bool
is_pass_item ItemKind.pass = true
is_pass_item other = false

abbrev pub sold_a_pass : Db → ℕ → Bool
sold_a_pass db order = any (λ i. i.order == order && is_pass_item i.kind) db.items

-- A pass that the order sold has been redeemed.
abbrev pub has_used_pass : Db → ℕ → Bool
has_used_pass db order =
    any (λ p. p.order == order && any (λ r. r.pass_purchase == p.id) db.pass_redemptions)
      db.pass_purchases

abbrev pub succeeded_payment : Db → ℕ → Option Payment
succeeded_payment db order = find_first (λ p. p.order == order && is_succeeded p.status) db.payments

abbrev pub provider_of : Option Payment → Text
provider_of none = codes "stripe"
provider_of (some p) = p.provider

abbrev pub intent_of : Option Payment → Text
intent_of none = []
intent_of (some p) = p.provider_ref

-- `text.startswith("pi_")`
abbrev pub starts_with : Text → Text → Bool
starts_with [] t = true
starts_with (c ∷ s) [] = false
starts_with (c ∷ s) (d ∷ t) = c == d && starts_with s t

abbrev pub set_status : OrderStatus → Order → Order
set_status status o = record o { status = status }

abbrev pub refund_passes : Db → ℕ → Db
refund_passes db order =
    if sold_a_pass db order
    then record db {
      pass_purchases =
          update_where (λ p. p.order == order) (λ p. record p { status = PassStatus.refunded })
            db.pass_purchases;
    }
    else db

abbrev pub record_refund : Db → Order → Text → Text → Db
record_refund db o provider refund_ref = record db {
  orders = update_where (λ x. x.id == o.id) (set_status OrderStatus.refunded) db.orders;
  payments =
      db.payments
      ++ record {
        order = o.id;
        provider = provider;
        amount = o.total;
        status = PaymentStatus.refunded;
        provider_ref = refund_ref;
      }
        ∷ [];
}

-- The writes, once the money is on its way back.
unfoldable pub reverse_order : Db → Order → Text → Text → Db
unfolding void_order restore_redemptions_for_order
reverse_order db o provider refund_ref =
    let voided = (void_order db o).0 in
    let restored = (restore_redemptions_for_order voided o.id).0 in
    record_refund (refund_passes restored o.id) o provider refund_ref

module _ (stripe_refund : Text → Option Text) where
  -- The refund's id, or blank where no charge was made.
  unfoldable pub refund_money : Option Payment → Result RefundError Text
  refund_money payment =
      if text_eq (provider_of payment) (codes "stripe")
      then if starts_with (codes "pi_") (intent_of payment)
        then (elim (stripe_refund (intent_of payment)) [
          | none ↦ err RefundError.rejected
          | some refund_ref ↦ ok refund_ref
        ])
        else err RefundError.no_payment_intent
      else ok []

  unfoldable pub refund_found : Db → Order → Result RefundError (Db × Bool)
  unfolding refund_money
  refund_found db o = do
    raise_if (sold_a_pass db o.id && has_used_pass db o.id) RefundError.pass_used
    refund_ref ← refund_money (succeeded_payment db o.id)
    ok (reverse_order db o (provider_of (succeeded_payment db o.id)) refund_ref, true)

  -- False where nothing was refunded.
  unfoldable pub refund_order : Db → ℕ → Result RefundError (Db × Bool)
  unfolding refund_found
  refund_order db order = elim (find_first (λ o. o.id == order) db.orders) [
    | none ↦ err RefundError.no_order
    | some o ↦ if not (is_paid o.status) then ok (db, false) else refund_found db o
  ]
