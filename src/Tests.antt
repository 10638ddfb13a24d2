-- ===== src/Tests.antt =====
-- Runs of the model on a small theater, and the theorems at those inputs: the theater.

mod Holds
mod Promotions
mod Orders
mod Passes
mod Payments
mod Office
mod Prices
mod Charts
mod Hosts
mod Links
mod Mailing
mod Seating
mod Staff
use boxoffice.Common.{
  ℕ, zero, suc, ◌+◌, ◌-◌, ◌*◌, ◌/◌, ◌%◌, ◌≤◌, ◌<◌, ◌≡◌, refl, sym, ap, subst, ◌∙◌, ◌≢◌, ◌⊎◌, inl,
  inr, ◌↔◌, Bool, true, false, not, ◌&&◌, ◌||◌, Option, none, some, List, [], ◌∷◌, ◌++◌, map, arith,
  ltb, leb, ◌==◌, if◌then◌else◌, ltb→lt, lt→ltb, leb→le, ==_iff, ==_refl, &&_split, Bool-cases,
  Option-cases, is_key, is_some, or_else, length, select, find_first, any, update_where, sum_by,
  All, contains, replicate, order_by, count_by, is_empty, insert_by,
}
use boxoffice.Common.Int.{
  ℤ, pos, negsuc, pos_part, neg_part, sub_ℕ, ◌+ℤ◌, ◌-ℤ◌, ◌≤ℤ◌, ltb_ℤ, leb_ℤ, scale, max_ℤ, min_ℤ,
  +ℤ_parts, -ℤ_parts, scale_parts, eq_of_parts, int_laws,
}
use boxoffice.Common.Text.{Text, codes, lower, text_eq, is_blank, upper, strip, text_eq_iff}
use boxoffice.Common.Results.{
  Result, ok, err, ◌>>=◌, ◌>>◌, raise_if, bind_ok, OnOk, OnOk-ok, ok-injective, err-ne-ok,
  Result-cases,
}
use boxoffice.Db.{
  Db, Organization, Performance, Section, Seat, PriceTier, PricingZone, GaAllocation, HoldSeat,
  Hold, SeatBlock, OrderStatus, Order, ItemKind, OrderItem, TicketStatus, Ticket, PaymentStatus,
  Payment, GuestAccount, PassKind, PassStatus, PassProduct, PassPurchase, PassRedemption, is_void,
}
use boxoffice.Orders.Fits.{set_ga_hold-ga_available}
use boxoffice.Orders.Fits.{set_ga_hold_iff}
use boxoffice.Events.Zones.{
  ZoneTemplate, ZoneError, apply_zone, remove_seats_from_zone, delete_zone, get_or_create_template,
  clone_zones_from_performance, seat_keys,
}
use boxoffice.Events.Zones.Moves.{OneZone, in_zone}
use boxoffice.Events.Zones.OneZone.{apply_zone-OneZone}
use boxoffice.Events.Zones.Clone.{clone_zones_from_performance-in_zone}
use boxoffice.Common.Keys.{Keyed}
use boxoffice.Events.Pricing.{resolve_seat_price}
use boxoffice.Events.Pricing.Agreement.{IsSeated, resolve_reserved_prices-resolve_seat_price}
use boxoffice.Orders.Availability.{ga_available, performance_seats}
use boxoffice.Payments.Checkout.{Session, SessionKind, fulfill_checkout_session, dispatch}
use boxoffice.Payments.Checkout.Redelivery.{fulfill_checkout_session_idempotent}
use boxoffice.Payments.Purchases.{fulfill_donation}
use boxoffice.Payments.Refund.{RefundError, refund_order, reverse_order}
use boxoffice.Payments.Refund.Once.{refund_order_once}
use boxoffice.Payments.Fulfill.{FulfillError, create_order}
use boxoffice.Passes.{restore_redemptions_for_order}
use boxoffice.Passes.Balance.{Entitled}
use boxoffice.Passes.Balance.Restored.{Restored, restore_redemptions_for_order_exact}
use boxoffice.Payments.PassRedemption.{fetch_pass, fulfill_hold_with_pass, record_uses, RedeemError}
use boxoffice.Passes.{redeemable_now, pass_covers_performance}
use boxoffice.Guests.{get_or_create_for_email}
use boxoffice.Common.Results.{Result}
use boxoffice.Payments.PassRedemption.Credits.{fulfill_hold_with_pass-Entitled}
use boxoffice.Payments.PassRedemption.Used.{IsUsed}
use boxoffice.Orders.Cart.{apply_promo_code, set_hold_donation, with_promo}
use boxoffice.Orders.Cart.Charge.{IsCharged, apply_promo_code_charge}
use boxoffice.Orders.Void.{live_tickets, void_order}
use boxoffice.Orders.Void.Effects.{void_order_idempotent}
use boxoffice.Orders.Tokens.{key_for_org, sign_token, sign_ticket, verify_ticket_sig, scan_code}
use boxoffice.Common.Decimal.{decimal}
use boxoffice.Orders.Tokens.Laws.{split_code, IsB32, scan_code_roundtrip}
use boxoffice.Scanning.{redeem_ticket, has_token}
use boxoffice.Scanning.Admission.{IsAdmissible, redeem_ticket_admits_iff}
use boxoffice.Scanning.Once.{Scan, admissions, admissions_at_most_once}
use boxoffice.System.{State, Step, Run, at}
use boxoffice.System.Reachable.{NotOversold, Run-IsSound}
use boxoffice.Inventory.Cart.{apply_promo_code-IsSound}
use boxoffice.Inventory.Voids.{void_order-IsSound}
use boxoffice.Inventory.Scans.{redeem_ticket-IsSound}
use mathlib.Core.Bool.{false≢true}
use boxoffice.Promotions.{
  PromoCode, Kind, PromoError, compute_discount, validate_code, get_usable_code, normalize,
  record_redemption,
}
use boxoffice.Promotions.Discount.{compute_discount_bounds, compute_discount_nearest}
use boxoffice.Promotions.Validation.{IsUsable, validate_code_iff}
use boxoffice.Promotions.Lookup.{get_usable_code_scoped}
use boxoffice.Orders.Availability.{
  is_active, holds_seat, get_allocation, is_ticketed, is_live_for, held_quantity,
  active_ga_held_qty, seat_ids_of, resolve_reserved_prices, price_tiers_by_section,
  performance_seats, get_seating_chart,
}
use boxoffice.Orders.Holds.{
  HoldError, clear_session_hold, set_ga_hold, set_reserved_hold, hold_seats_of, requested_seats,
  release_hold_by_id,
}
use boxoffice.Orders.Money.{hold_grand_total, hold_total}
use boxoffice.Payments.Fulfill.{FulfillError, Purchase, fulfill_hold}
use boxoffice.Inventory.{IsSound, ga_held}
use boxoffice.Inventory.Changes.{later-IsSound}
use boxoffice.Inventory.Holds.{set_ga_hold-IsSound}
use boxoffice.Inventory.Counted.{IsCounted}
use boxoffice.Inventory.Released.{Released, release_hold_by_id_scoped}
use boxoffice.Inventory.Seats.{set_reserved_hold-IsSound}
use boxoffice.Inventory.Sales.{IsLive}
use boxoffice.Inventory.Fulfilled.{fulfill_hold-IsSound}
use boxoffice.Inventory.Progress.{AreNew, IsPlaced, fulfill_hold_succeeds}
use boxoffice.Events.Pricing.{resolve_seat_tier, zones_by_seat_id}
use boxoffice.Payments.Units.{
  to_minor_units, application_fee_amount, is_zero_decimal, is_three_decimal,
}
use boxoffice.Payments.Units.Exact.{per_hundredth, to_minor_units_exact, zero_decimal_drift}
use boxoffice.Payments.LineItems.{line_items_for_hold, charge}
use boxoffice.Payments.LineItems.Reconcile.{IsUniform, line_items_reconcile}
use boxoffice.Orders.Money.{hold_discount, hold_donation, hold_currency, ga_unit_amount}

-- A theater with a general-admission performance 1 of 4 places and a reserved performance 2, whose
-- chart has the seats 21, 22 and 23.
abbrev house : Organization
house = record { currency = codes "USD"; platform_fee_percent = none }

abbrev gala : Performance
gala = record {
  id = 1;
  organization = 7;
  event = 1;
  venue = 1;
  starts_at = 100000;
  seating_chart = none;
}

abbrev recital : Performance
recital = record {
  id = 2;
  organization = 7;
  event = 2;
  venue = 1;
  starts_at = 200000;
  seating_chart = some 5;
}

abbrev stalls : Section
stalls = record { id = 3; organization = 7; chart = 5 }

abbrev seat_at : ℕ → Seat
seat_at n = record { id = n; organization = 7; section = stalls }

abbrev standard : PriceTier
standard = record {
  id = 1;
  organization = 7;
  performance = some 1;
  section = none;
  name = codes "Standard";
  amount = pos 2500;
  currency = codes "USD";
}

abbrev stalls_tier : PriceTier
stalls_tier = record {
  id = 2;
  organization = 7;
  performance = none;
  section = some 3;
  name = codes "Stalls";
  amount = pos 4000;
  currency = codes "USD";
}

abbrev tier_row : ℕ → PriceTier
tier_row n = if n == 1 then standard else stalls_tier

abbrev performance_row : ℕ → Performance
performance_row n = if n == 1 then gala else recital

abbrev summer : PromoCode
summer = record {
  id = 1;
  organization = 7;
  code = codes "SUMMER";
  kind = Kind.percent;
  value = 1500;
  currency = [];
  starts_at = none;
  ends_at = some 9000;
  max_redemptions = some 10;
  redemption_count = 3;
  min_order_amount = some (pos 1000);
  is_active = true;
}

abbrev shop : Db
shop = record {
  organization = λ _. house;
  performance = performance_row;
  venue_charts = λ _. 5 ∷ [];
  sections = stalls ∷ [];
  seats = seat_at 21 ∷ seat_at 22 ∷ seat_at 23 ∷ [];
  tier = tier_row;
  tier_ids = 1 ∷ 2 ∷ [];
  zones = [];
  allocations = record { performance = 1; capacity = 4; sold = 1 } ∷ [];
  blocks = record { performance = 2; seat = 23 } ∷ [];
  holds = [];
  orders = [];
  items = [];
  tickets = [];
  payments = [];
  guests = [];
  promos = summer ∷ [];
  pass_products = [];
  pass_purchases = [];
  pass_redemptions = [];
  next_id = 50;
}

shop-IsSound : IsSound 1000 shop
unfolding ga_held
shop-IsSound = record {
  scoped = tt;
  ga_fits = λ p a e. ground arith;
  held_once = λ p s. omega arith;
  held_not_sold = λ p s e. refl;
  sold_once = λ p s. omega arith;
  key_once = λ k. omega arith;
  keys = tt;
  tickets_keyed = record { once = λ k. omega arith; below = tt };
}
