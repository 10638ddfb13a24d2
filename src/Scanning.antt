-- ===== src/Scanning.antt =====
-- scanning/services.py: the redemption of a ticket at the door. A result's message is a constructor;
-- the times and names that it shows are left out.

pub mod Admission
pub mod Once
use boxoffice.Common.{
  ℕ, zero, suc, ◌+◌, ◌-◌, ◌*◌, ◌/◌, ◌%◌, ◌≤◌, ◌<◌, ◌≡◌, refl, sym, ap, subst, ◌∙◌, ◌≢◌, ◌⊎◌, inl,
  inr, ◌↔◌, Bool, true, false, not, ◌&&◌, ◌||◌, Option, none, some, List, [], ◌∷◌, ◌++◌, map, arith,
  ltb, leb, ◌==◌, if◌then◌else◌, ltb→lt, lt→ltb, leb→le, ==_iff, ==_refl, &&_split, Bool-cases,
  Option-cases, is_key, is_some, or_else, length, select, find_first, any, update_where, sum_by,
  All, contains, replicate, order_by, count_by, is_empty, insert_by,
}
use boxoffice.Common.Int.{
  ℤ, pos, negsuc, pos_part, neg_part, sub_ℕ, ◌+ℤ◌, ◌-ℤ◌, ◌≤ℤ◌, ltb_ℤ, leb_ℤ, scale, max_ℤ, min_ℤ,
  +ℤ_parts, -ℤ_parts, scale_parts, eq_of_parts, int_laws,
}
use boxoffice.Common.Text.{Text, codes, lower, text_eq, is_blank, upper, strip, text_eq_iff}
use boxoffice.Common.Results.{
  Result, ok, err, ◌>>=◌, ◌>>◌, raise_if, bind_ok, OnOk, OnOk-ok, ok-injective, err-ne-ok,
  Result-cases,
}
use boxoffice.Db.{
  Db, Organization, Performance, Section, Seat, PriceTier, PricingZone, GaAllocation, HoldSeat,
  Hold, SeatBlock, OrderStatus, Order, ItemKind, OrderItem, TicketStatus, Ticket, PaymentStatus,
  Payment, GuestAccount, is_void,
}
use boxoffice.Orders.Tokens.{verify_ticket_sig}

pub data Reason : Type 0 where
  admitted bad_sig not_found already_used void wrong_time : Reason

pub data Message : Type 0 where
  invalid_signature no_ticket voided already_scanned too_early too_late admit : Message

pub record ScanResult : Type 0 where
  pub ok : Bool
  pub reason : Reason
  pub message : Message
  pub ticket : Option Ticket

-- One hour and four hours.
abbrev pub scan_window_opens_before : ℕ
scan_window_opens_before = 3600

abbrev pub scan_window_closes_after : ℕ
scan_window_closes_after = 14400

abbrev pub refuse : Reason → Message → Option Ticket → ScanResult
refuse reason message ticket = record {
  ok = false;
  reason = reason;
  message = message;
  ticket = ticket;
}

-- `now < starts_at - SCAN_WINDOW_OPENS_BEFORE` has the hour on the other side.
unfoldable pub wrong_time_result : Db → Ticket → ℕ → Option ScanResult
wrong_time_result db ticket now =
    let starts_at = (db.performance ticket.performance).starts_at in
    if ltb (now + scan_window_opens_before) starts_at
    then some (refuse Reason.wrong_time Message.too_early (some ticket))
    else if ltb (starts_at + scan_window_closes_after) now
    then some (refuse Reason.wrong_time Message.too_late (some ticket))
    else none

abbrev pub use_ticket : ℕ → ℕ → Ticket → Ticket
use_ticket now scanned_by t = record t {
  status = TicketStatus.used;
  used_at = some now;
  scanned_by = some scanned_by;
}

-- `ticket.save(update_fields=["status", "used_at", "scanned_by"])`
abbrev pub save_used : Db → Ticket → ℕ → ℕ → Db
save_used db ticket now scanned_by = record db {
  tickets = update_where (λ t. t.id == ticket.id) (use_ticket now scanned_by) db.tickets;
}

abbrev pub has_token : ℕ → Text → Ticket → Bool
has_token organization token t = t.organization == organization && text_eq t.token token

-- The call below the lookup: the verdict on the ticket that the code names.
unfoldable pub redeem_found : Db → Ticket → ℕ → ℕ → Db × ScanResult
unfolding wrong_time_result
redeem_found db ticket now scanned_by = elim ticket.status [
  | TicketStatus.void ↦ (db, refuse Reason.void Message.voided (some ticket))
  | TicketStatus.used ↦ (db, refuse Reason.already_used Message.already_scanned (some ticket))
  | TicketStatus.valid ↦ elim (wrong_time_result db ticket now) [
    | some result ↦ (db, result)
    | none ↦ (
      save_used db ticket now scanned_by,
      record {
        ok = true;
        reason = Reason.admitted;
        message = Message.admit;
        ticket = some (use_ticket now scanned_by ticket);
      },
    )
  ]
]

module _ (secret_key : Text) (hmac_sha256 : Text → Text → List ℕ) where
  unfoldable pub redeem_ticket : Db → ℕ → Text → Option Text → ℕ → ℕ → Db × ScanResult
  unfolding verify_ticket_sig redeem_found
  redeem_ticket db organization token sig scanned_by now =
      if not (verify_ticket_sig secret_key hmac_sha256 token sig organization)
      then (db, refuse Reason.bad_sig Message.invalid_signature none)
      else elim (find_first (has_token organization token) db.tickets) [
        | none ↦ (db, refuse Reason.not_found Message.no_ticket none)
        | some ticket ↦ redeem_found db ticket now scanned_by
      ]
