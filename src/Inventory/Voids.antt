-- ===== src/Inventory/Voids.antt =====
-- orders/services.py's void_order: it frees inventory and takes none.
use boxoffice.Common.Updates.{count_by-update-le, any-update-le}
use boxoffice.Orders.Availability.{is_ticketed, is_live_for}
use boxoffice.Orders.Void.{
  is_order_live, live_tickets, ga_count, void_ticket, free_places, free_ga, void_order,
}
use boxoffice.Inventory.{IsSound, ga_held}
use mathlib.Core.Bool.{false≢true}
use boxoffice.Common.{
  ℕ, ◌≤◌, ◌≡◌, refl, sym, ◌∙◌, inl, inr, true, Option, none, some, List, [], ◌∷◌, arith, ◌==◌,
  Bool-cases, find_first, All,
}
use boxoffice.Common.Keys.{Keyed-update}
use boxoffice.Db.{Db, GaAllocation, Order, Ticket}

-- A void ticket is live for nothing.
voided :
    (order p s : ℕ) (ts : List Ticket)
    → All
        (λ t.
          is_order_live order t ≡ true
          → is_live_for p s (void_ticket t) ≡ true
          → is_live_for p s t ≡ true)
        ts
voided order p s [] = tt
voided order p s (t ∷ ts) = (λ _ e. ground (arith, e), voided order p s ts)

-- An allocation keeps its capacity and sells no more than before.
free_places-less :
    (p performance n : ℕ) (xs : List GaAllocation) (a : GaAllocation)
    → find_first (λ a. a.performance == p) (free_places performance n xs) ≡ some a
    → (a₀ : GaAllocation) × (find_first (λ a. a.performance == p) xs ≡ some a₀)
      × (a.capacity ≡ a₀.capacity)
      × (a.sold ≤ a₀.sold)
free_places-less p performance n [] a e = absurd (cc e)
free_places-less p performance n (x ∷ xs) a e = elim (Bool-cases (x.performance == p)) [
  | inl here ↦ (x, rw here, ground (arith, here), ground (arith, here))
  | inr later ↦
      let (a₀, e₀, cap, sold) = free_places-less p performance n xs a (ground (arith, later)) in
      (a₀, rw later e₀, cap, sold)
]

free_ga-less :
    (p : ℕ) (performance : Option ℕ) (n : ℕ) (xs : List GaAllocation) (a : GaAllocation)
    → find_first (λ a. a.performance == p) (free_ga performance n xs) ≡ some a
    → (a₀ : GaAllocation) × (find_first (λ a. a.performance == p) xs ≡ some a₀)
      × (a.capacity ≡ a₀.capacity)
      × (a.sold ≤ a₀.sold)
free_ga-less p none n xs a e = (a, e, refl, omega arith)
free_ga-less p (some performance) n xs a e = elim (Bool-cases (n == 0)) [
  | inl nothing ↦ (a, rw nothing at e, refl, omega arith)
  | inr places ↦ free_places-less p performance n xs a (rw places at e)
]

-- Voiding an order keeps the invariant.
pub void_order-IsSound :
    (now : ℕ) (db : Db) (order : Order) → IsSound now db → IsSound now (void_order db order).0
unfolding void_order ga_held
void_order-IsSound now db order v = record {
  scoped = v.scoped;
  ga_fits = λ p a e.
      let (a₀, e₀, cap, sold) =
        free_ga-less p order.performance (ga_count (live_tickets db order.id)) db.allocations a e in
      omega (arith, cap, sold, v.ga_fits p a₀ e₀);
  held_once = v.held_once;
  held_not_sold = λ p s e. elim (Bool-cases (is_ticketed (void_order db order).0 p s)) [
    | inl still ↦ absurd (
        false≢true (
          sym (v.held_not_sold p s e)
          ∙ any-update-le (is_order_live order.id) void_ticket (is_live_for p s) db.tickets
              (voided order.id p s db.tickets) still))
    | inr free ↦ free
  ];
  sold_once = λ p s. omega (
    arith,
    v.sold_once p s,
    count_by-update-le (is_order_live order.id) void_ticket (is_live_for p s) db.tickets
        (voided order.id p s db.tickets),
  );
  key_once = v.key_once;
  keys = v.keys;
  tickets_keyed =
      Keyed-update (λ (t : Ticket). t.id) db.next_id (is_order_live order.id) void_ticket db.tickets
        (λ _. refl) v.tickets_keyed;
}
