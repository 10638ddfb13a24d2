-- ===== src/Inventory/Same.antt =====
-- Writes that leave the inventory alone: guests, orders, items, payments, promo codes.
use boxoffice.Common.{
  ℕ, ◌<◌, ◌≤◌, [], ◌∷◌, ◌≡◌, sym, ap, subst, ◌∙◌, some, List, arith, ◌==◌, select, find_first,
  sum_by, All,
}
use boxoffice.Common.Keys.{Keyed-weaken}
use boxoffice.Db.{Ticket, Db, Performance, GaAllocation, Hold, Order}
use mathlib.Core.Path.{subst₂}
use boxoffice.Guests.{get_or_create_for_email, record_marketing_opt_in}
use boxoffice.Orders.Availability.{held_quantity}
use boxoffice.Payments.Fulfill.{Purchase, attach_guest, settle, delete_hold}
use boxoffice.Inventory.{IsSound, ga_held}
use boxoffice.Inventory.Changes.{is_ga_holding, ga_held-eq}

pub record SameInventory (db db' : Db) : Type 0 where
  pub performance : db'.performance ≡ db.performance
  pub allocations : db'.allocations ≡ db.allocations
  pub holds : db'.holds ≡ db.holds
  pub tickets : db'.tickets ≡ db.tickets
  pub next_id : db.next_id ≤ db'.next_id

pub All-weaken :
    (n m : ℕ) → n ≤ m → (hs : List Hold) → All (λ h. h.id < n) hs → All (λ h. h.id < m) hs
All-weaken n m le [] a = tt
All-weaken n m le (h ∷ hs) a = (omega (arith, le, a.0), All-weaken n m le hs a.1)

module _ (now : ℕ) (db db' : Db) (same : SameInventory db db') where
  ga_held-same : (p : ℕ) → ga_held db' p now ≡ ga_held db p now
  ga_held-same p =
      ga_held-eq db' p now
      ∙ ap (λ hs. sum_by held_quantity (select (is_ga_holding p now) hs)) same.holds
      ∙ sym (ga_held-eq db p now)

  pub same-IsSound : IsSound now db → IsSound now db'
  same-IsSound v = record {
    scoped =
        subst₂
          (λ (perf : ℕ → Performance) (hs : List Hold).
            All (λ h. h.organization ≡ (perf h.performance).organization) hs)
          (sym same.performance) (sym same.holds) v.scoped;
    ga_fits = λ p a e. rw ga_held-same (
        v.ga_fits p a (
          subst (λ (l : List GaAllocation). find_first (λ a. a.performance == p) l ≡ some a)
            same.allocations e));
    held_once = λ p s. rw same.holds (v.held_once p s);
    held_not_sold = λ p s e. rw same.tickets (v.held_not_sold p s (rw same.holds at e));
    sold_once = λ p s. rw same.tickets (v.sold_once p s);
    key_once = λ k. rw same.holds (v.key_once k);
    tickets_keyed = rw same.tickets (
        Keyed-weaken (λ (t : Ticket). t.id) db.next_id db'.next_id same.next_id db.tickets
          v.tickets_keyed);
    keys = rw same.holds (All-weaken db.next_id db'.next_id same.next_id db.holds v.keys);
  }

pub attach_guest-same :
    (db : Db) (hold : Hold) (purchase : Purchase) (now : ℕ)
    → SameInventory db (attach_guest db hold purchase now).0
unfolding get_or_create_for_email record_marketing_opt_in
attach_guest-same db hold purchase now = record {
  performance = ground arith;
  allocations = ground arith;
  holds = ground arith;
  tickets = ground arith;
  next_id = ground arith;
}

pub settle-same :
    (db : Db) (hold : Hold) (order : Order) (purchase : Purchase)
    → SameInventory (delete_hold db hold) (settle db hold order purchase)
settle-same db hold order purchase = record {
  performance = ground arith;
  allocations = ground arith;
  holds = ground arith;
  tickets = ground arith;
  next_id = ground arith;
}
