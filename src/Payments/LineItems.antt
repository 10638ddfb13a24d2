-- ===== src/Payments/LineItems.antt =====
-- payments/services.py's _line_items_for_hold: what the hosted checkout page charges for. The names of
-- the lines are display text and are left out.
pub mod Reconcile
use boxoffice.Common.{
  ℕ, zero, suc, ◌+◌, ◌-◌, ◌*◌, ◌/◌, ◌%◌, ◌≤◌, ◌<◌, ◌≡◌, refl, sym, ap, subst, ◌∙◌, ◌≢◌, ◌⊎◌, inl,
  inr, ◌↔◌, Bool, true, false, not, ◌&&◌, ◌||◌, Option, none, some, List, [], ◌∷◌, ◌++◌, map, arith,
  ltb, leb, ◌==◌, if◌then◌else◌, ltb→lt, lt→ltb, leb→le, ==_iff, ==_refl, &&_split, Bool-cases,
  Option-cases, is_key, is_some, or_else, length, select, find_first, any, update_where, sum_by,
  All, contains, replicate, order_by, count_by, is_empty, insert_by,
}
use boxoffice.Common.Int.{
  ℤ, pos, negsuc, pos_part, neg_part, sub_ℕ, ◌+ℤ◌, ◌-ℤ◌, ◌≤ℤ◌, ltb_ℤ, leb_ℤ, scale, max_ℤ, min_ℤ,
  +ℤ_parts, -ℤ_parts, scale_parts, eq_of_parts, int_laws,
}
use boxoffice.Common.Text.{Text, codes, lower, text_eq, is_blank, upper, strip, text_eq_iff}
use boxoffice.Common.Results.{
  Result, ok, err, ◌>>=◌, ◌>>◌, raise_if, bind_ok, OnOk, OnOk-ok, ok-injective, err-ne-ok,
  Result-cases,
}
use boxoffice.Db.{
  Db, Organization, Performance, Section, Seat, PriceTier, PricingZone, GaAllocation, HoldSeat,
  Hold, SeatBlock, OrderStatus, Order, ItemKind, OrderItem, TicketStatus, Ticket, PaymentStatus,
  Payment, GuestAccount, is_void,
}
use boxoffice.Orders.Money.{ga_parts, ga_unit_amount, hold_currency, hold_donation}
use boxoffice.Payments.Units.{to_minor_units}

pub record LineItem : Type 0 where
  pub quantity : ℕ
  pub currency : Text
  pub unit_amount : ℤ

abbrev pub line_item : ℕ → ℤ → Text → LineItem
line_item quantity amount currency = record {
  quantity = quantity;
  currency = lower currency;
  unit_amount = to_minor_units amount currency;
}

abbrev pub seat_currency : Db → Hold → HoldSeat → Text
seat_currency db hold hs = elim hs.price_tier [
  | some tier ↦ (db.tier tier).currency
  | none ↦ (db.organization hold.organization).currency
]

abbrev pub seat_lines : Db → Hold → List HoldSeat → List LineItem
seat_lines db hold [] = []
seat_lines db hold (hs ∷ rest) =
    line_item 1 hs.unit_amount (seat_currency db hold hs) ∷ seat_lines db hold rest

abbrev pub donation_lines : Db → Hold → List LineItem
donation_lines db hold =
    if leb_ℤ (hold_donation hold) (pos 0)
    then []
    else line_item 1 (hold_donation hold) (hold_currency db hold) ∷ []

abbrev pub ga_line : Db → Hold → ℕ → ℕ → LineItem
ga_line db hold tier q = line_item q (ga_unit_amount db hold tier) (db.tier tier).currency

unfoldable pub line_items_for_hold : Db → Hold → List LineItem
line_items_for_hold db hold = elim (ga_parts hold) [
  | some (tier, q) ↦ ga_line db hold tier q ∷ donation_lines db hold
  | none ↦ seat_lines db hold hold.hold_seats ++ donation_lines db hold
]

-- What the lines come to, in minor units.
abbrev pub charge : List LineItem → ℤ
charge [] = pos 0
charge (l ∷ lines) = scale l.quantity l.unit_amount +ℤ charge lines
