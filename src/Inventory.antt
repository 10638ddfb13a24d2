-- ===== src/Inventory.antt =====
-- What orders/services.py and payments/services.py promise of a theater's inventory, at an instant:
-- the invariant of the tables that every hold, sale, scan and void keeps.
pub mod Changes
pub mod Insert
pub mod Holds
pub mod Seats
pub mod Same
pub mod Saves
pub mod Cart
pub mod Voids
pub mod Scans
pub mod Refunds
pub mod Checkouts
pub mod PassRedemptions
pub mod Minting
pub mod Sales
pub mod Fulfilled
pub mod Progress
pub mod Released
pub mod Counted
use boxoffice.Common.{
  ℕ, zero, suc, ◌+◌, ◌-◌, ◌*◌, ◌/◌, ◌%◌, ◌≤◌, ◌<◌, ◌≡◌, refl, sym, ap, subst, ◌∙◌, ◌≢◌, ◌⊎◌, inl,
  inr, ◌↔◌, Bool, true, false, not, ◌&&◌, ◌||◌, Option, none, some, List, [], ◌∷◌, ◌++◌, map, arith,
  ltb, leb, ◌==◌, if◌then◌else◌, ltb→lt, lt→ltb, leb→le, ==_iff, ==_refl, &&_split, Bool-cases,
  Option-cases, is_key, is_some, or_else, length, select, find_first, any, update_where, sum_by,
  All, contains, replicate, order_by, count_by,
}
use boxoffice.Common.Int.{
  ℤ, pos, negsuc, pos_part, neg_part, sub_ℕ, ◌+ℤ◌, ◌-ℤ◌, ◌≤ℤ◌, ltb_ℤ, leb_ℤ, scale, max_ℤ, min_ℤ,
  +ℤ_parts, -ℤ_parts, scale_parts, eq_of_parts, int_laws,
}
use boxoffice.Common.Text.{Text, codes, lower, text_eq, is_blank, upper, strip, text_eq_iff}
use boxoffice.Common.Results.{Result, ok, err, ◌>>=◌, ◌>>◌, raise_if, bind_ok}
use boxoffice.Common.Keys.{Keyed}
use boxoffice.Db.{
  Db, Organization, Performance, Section, Seat, PriceTier, PricingZone, GaAllocation, HoldSeat,
  Hold, SeatBlock, OrderStatus, Order, ItemKind, OrderItem, TicketStatus, Ticket, PaymentStatus,
  Payment, GuestAccount, is_void,
}
use boxoffice.Orders.Availability.{
  is_active, holds_seat, get_allocation, active_ga_held_qty, is_ticketed, is_live_for,
}

-- Places of a general-admission performance that active holds have.
unfoldable pub ga_held : Db → ℕ → ℕ → ℕ
unfolding active_ga_held_qty
ga_held db performance now = active_ga_held_qty db performance none now

-- An active hold on the performance has the seat.
abbrev pub is_holding : ℕ → ℕ → ℕ → Hold → Bool
is_holding performance seat now h =
    h.performance == performance && is_active now h && holds_seat seat h

abbrev pub IsScoped : Db → Hold → Type 0
IsScoped db h = h.organization ≡ (db.performance h.performance).organization

pub record IsSound (now : ℕ) (db : Db) : Type 0 where
  -- A hold belongs to the theater of its performance.
  pub scoped : All (IsScoped db) db.holds
  -- What is sold and what is held fit into the allocation.
  pub ga_fits :
      (p : ℕ) (a : GaAllocation)
      → get_allocation db p ≡ some a
      → a.sold + ga_held db p now ≤ a.capacity
  -- A seat of a performance is in at most one active hold, ...
  pub held_once : (p s : ℕ) → count_by (is_holding p s now) db.holds ≤ 1
  -- ... which has it while no live ticket does, ...
  pub held_not_sold :
      (p s : ℕ) → any (is_holding p s now) db.holds ≡ true → is_ticketed db p s ≡ false
  -- ... and at most one live ticket has it.
  pub sold_once : (p s : ℕ) → count_by (is_live_for p s) db.tickets ≤ 1
  -- A hold's pk is its own, and was handed out before.
  pub key_once : (k : ℕ) → count_by (λ h. h.id == k) db.holds ≤ 1
  pub keys : All (λ h. h.id < db.next_id) db.holds
  -- A ticket's pk too.
  pub tickets_keyed : Keyed (λ (t : Ticket). t.id) db.next_id db.tickets
