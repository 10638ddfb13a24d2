-- ===== src/Tests/Orders.antt =====
-- Runs of the model, and the theorems at those inputs: a cart, a void order and the door.
use boxoffice.Common.{
  ℕ, ◌+◌, ◌*◌, ◌≤◌, ◌≡◌, refl, ◌↔◌, true, false, Option, none, some, List, [], ◌∷◌, arith, length,
  find_first, All, replicate,
}
use boxoffice.Common.Int.{pos, ◌+ℤ◌, scale}
use boxoffice.Common.Text.{Text, codes}
use boxoffice.Common.Results.{ok}
use boxoffice.Db.{Db, Hold, OrderStatus, Order, TicketStatus, Ticket}
use boxoffice.Orders.Cart.{apply_promo_code}
use boxoffice.Orders.Cart.Charge.{IsCharged, apply_promo_code_charge}
use boxoffice.Orders.Void.{live_tickets, void_order}
use boxoffice.Orders.Void.Effects.{void_order_idempotent}
use boxoffice.Orders.Tokens.{key_for_org, sign_token, verify_ticket_sig, scan_code}
use boxoffice.Common.Decimal.{decimal}
use boxoffice.Orders.Tokens.Laws.{split_code, IsB32, scan_code_roundtrip}
use boxoffice.Scanning.{redeem_ticket, has_token}
use boxoffice.Scanning.Admission.{IsAdmissible, redeem_ticket_admits_iff}
use boxoffice.Scanning.Once.{Scan, admissions, admissions_at_most_once}
use boxoffice.Promotions.{compute_discount, validate_code, get_usable_code}
use boxoffice.Orders.Money.{hold_total}
use boxoffice.Orders.Money.{hold_currency}
use boxoffice.Tests.{shop}
use boxoffice.Tests.Holds.{seat_buyer, with_seats}

-- The two seats with the code SUMMER: 15% of 80.00.
abbrev with_summer : Hold
with_summer = record seat_buyer {
  promo_code = some 1;
  promo_code_text = codes "SUMMER";
  discount_amount = some (pos 1200);
}

abbrev with_discount : Db
with_discount = record with_seats { holds = with_summer ∷ [] }

apply_promo_code_run :
    apply_promo_code with_seats 7 41 (some 50) (some (codes "summer")) 1200
    ≡ ok (with_discount, with_summer)
unfolding apply_promo_code get_usable_code validate_code compute_discount hold_total hold_currency
    scale ◌+ℤ◌
apply_promo_code_run = refl

apply_promo_code_charge_example : IsCharged with_seats with_summer
apply_promo_code_charge_example =
    apply_promo_code_charge with_seats 7 41 (some 50) (some (codes "summer")) 1200
      apply_promo_code_run

-- An order of two tickets of the gala, and one of a seat of the recital that is void.
abbrev ticket_of : ℕ → ℕ → Option ℕ → TicketStatus → Ticket
ticket_of id performance seat status = record {
  id = id;
  organization = 7;
  order = 60;
  performance = performance;
  seat = seat;
  holder_name = codes "Ann";
  token = codes "ACDE";
  status = status;
  used_at = none;
  scanned_by = none;
}

abbrev pub sold_order : Order
sold_order = record {
  id = 60;
  organization = 7;
  performance = some 1;
  buyer_email = codes "ann@example.org";
  buyer_name = codes "Ann";
  guest = none;
  promo_code_text = [];
  discount_amount = pos 0;
  total = pos 5000;
  status = OrderStatus.paid;
  stripe_checkout_session_id = none;
  token = codes "FGHJ";
}

abbrev pub sold_shop : Db
sold_shop = record shop {
  orders = sold_order ∷ [];
  tickets =
      ticket_of 61 1 none TicketStatus.valid
      ∷ ticket_of 62 1 none TicketStatus.used
      ∷ ticket_of 63 2 (some 21) TicketStatus.void
      ∷ [];
  next_id = 64;
}

void_order_idempotent_example :
    let (db', voided) = void_order sold_shop sold_order in
    (live_tickets db' 60 ≡ [])
    × (voided ≡ length (live_tickets sold_shop 60))
    × (void_order db' sold_order ≡ (db', 0))
unfolding void_order
void_order_idempotent_example = void_order_idempotent sold_shop sold_order

-- A digest of 32 bytes.
abbrev pub digest : Text → Text → List ℕ
digest key message = replicate 32 (length key * 7 + length message)

scan_code_roundtrip_example :
    let (token, sig) =
      split_code (scan_code (codes "key") digest (ticket_of 61 1 none TicketStatus.valid)) in
    (token ≡ codes "ACDE")
    × (verify_ticket_sig (codes "key") digest token (some sig) 7 ≡ true)
    × (length sig ≡ 20)
    × All IsB32 sig
unfolding scan_code verify_ticket_sig key_for_org
scan_code_roundtrip_example =
    scan_code_roundtrip (codes "key") digest (ticket_of 61 1 none TicketStatus.valid) refl
      (omega arith)

decimal_run : decimal 1207 ≡ codes "1207"
unfolding decimal
decimal_run = refl

abbrev door_sig : Option Text
unfolding sign_token
door_sig = some (sign_token (codes "key") digest (codes "ACDE") 7)

redeem_ticket_admits_iff_example :
    ((redeem_ticket (codes "key") digest sold_shop 7 (codes "ACDE") door_sig 3 99000).1.ok ≡ true)
    ↔ ((verify_ticket_sig (codes "key") digest (codes "ACDE") door_sig 7 ≡ true)
        × ((ticket : Ticket) × (find_first (has_token 7 (codes "ACDE")) sold_shop.tickets
              ≡ some ticket)
            × IsAdmissible sold_shop ticket 99000))
unfolding redeem_ticket
redeem_ticket_admits_iff_example =
    redeem_ticket_admits_iff (codes "key") digest sold_shop 7 (codes "ACDE") door_sig 3 99000

-- It is admitted an hour before the gala, and not a second earlier.
redeem_ticket_run :
    ((redeem_ticket (codes "key") digest sold_shop 7 (codes "ACDE") door_sig 3 96400).1.ok ≡ true)
    × ((redeem_ticket (codes "key") digest sold_shop 7 (codes "ACDE") door_sig 3 96399).1.ok
        ≡ false)
unfolding redeem_ticket sign_token key_for_org
redeem_ticket_run = (refl, refl)

abbrev scan_at : ℕ → Scan
scan_at now = record {
  organization = 7;
  token = codes "ACDE";
  sig = door_sig;
  scanned_by = 3;
  now = now;
}

admissions_at_most_once_example :
    admissions
      (codes "key")
      digest
      7
      (codes "ACDE")
      sold_shop
      (scan_at 96399 ∷ scan_at 99000 ∷ scan_at 99001 ∷ [])
    ≤ 1
unfolding redeem_ticket
admissions_at_most_once_example =
    admissions_at_most_once (codes "key") digest 7 (codes "ACDE") sold_shop
      (scan_at 96399 ∷ scan_at 99000 ∷ scan_at 99001 ∷ [])
