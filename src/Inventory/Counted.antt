-- ===== src/Inventory/Counted.antt =====
-- orders/services.py and payments/services.py: the sold places of an allocation count its live
-- general-admission tickets.
pub mod Sold
pub mod Voided
pub mod Written
pub mod Reversed
pub mod Placed
pub mod Delivered
use boxoffice.Common.{
  ℕ, zero, suc, ◌+◌, ◌≤◌, ◌<◌, ◌≡◌, refl, sym, subst, ◌∙◌, inl, inr, Bool, not, ◌&&◌, Option, some,
  List, [], ◌∷◌, ◌++◌, arith, ◌==◌, is_some, find_first, update_where, All, count_by,
}
use boxoffice.Common.Counting.{All-append}
use boxoffice.Db.{Db, GaAllocation, Order, Ticket, is_void}
use boxoffice.Orders.Availability.{get_allocation}

-- A live ticket of the performance without a seat.
abbrev pub is_ga_live : ℕ → Ticket → Bool
is_ga_live performance t =
    t.performance == performance && not (is_some t.seat) && not (is_void t.status)

-- The ticket's order, if it is in the table, is for the ticket's performance.
abbrev pub IsOf : List Order → Ticket → Type 0
IsOf orders t = All (λ (o : Order). t.order ≡ o.id → o.performance ≡ some t.performance) orders

pub record IsCounted (db : Db) : Type 0 where
  pub counted :
      (p : ℕ) (a : GaAllocation)
      → get_allocation db p ≡ some a
      → count_by (is_ga_live p) db.tickets ≤ a.sold
  pub placed : All (IsOf db.orders) db.tickets
  pub tickets_below : All (λ t. t.order < db.next_id) db.tickets
  pub orders_below : All (λ (o : Order). o.id < db.next_id) db.orders

-- What a write leaves alone that is not a sale.
pub record SameSales (db db' : Db) : Type 0 where
  pub allocations : db'.allocations ≡ db.allocations
  pub tickets : db'.tickets ≡ db.tickets
  pub orders : db'.orders ≡ db.orders
  pub next_id : db.next_id ≤ db'.next_id

pub weaken_tickets :
    (n m : ℕ) → n ≤ m → (ts : List Ticket) → All (λ t. t.order < n) ts → All (λ t. t.order < m) ts
weaken_tickets n m le [] a = tt
weaken_tickets n m le (t ∷ ts) a = (omega (arith, le, a.0), weaken_tickets n m le ts a.1)

pub weaken_orders :
    (n m : ℕ)
    → n ≤ m
    → (os : List Order) → All (λ (o : Order). o.id < n) os
    → All (λ (o : Order). o.id < m) os
weaken_orders n m le [] a = tt
weaken_orders n m le (o ∷ os) a = (omega (arith, le, a.0), weaken_orders n m le os a.1)

pub same-IsCounted : (db db' : Db) → SameSales db db' → IsCounted db → IsCounted db'
same-IsCounted db db' same c = record {
  counted = λ p a e. rw same.tickets (
      c.counted p a (
        subst (λ (l : List GaAllocation). find_first (λ a. a.performance == p) l ≡ some a)
          same.allocations e));
  placed = rw (same.tickets, same.orders) c.placed;
  tickets_below =
      rw same.tickets
        (weaken_tickets db.next_id db'.next_id same.next_id db.tickets c.tickets_below);
  orders_below =
      rw same.orders (weaken_orders db.next_id db'.next_id same.next_id db.orders c.orders_below);
}

IsOf-new :
    (orders : List Order) (order : Order) (ts : List Ticket)
    → All (λ t. t.order < order.id) ts
    → All (IsOf orders) ts
    → All (IsOf (orders ++ order ∷ [])) ts
IsOf-new orders order [] below a = tt
IsOf-new orders order (t ∷ ts) below a = (
  All-append (λ (o : Order). t.order ≡ o.id → o.performance ≡ some t.performance) orders
      (order ∷ []) a.0 (λ e. absurd (omega (arith, below.0, e)), tt),
  IsOf-new orders order ts below.1 a.1,
)

-- A new order takes the next pk, which no ticket names yet.
pub create-IsCounted :
    (db : Db) (order : Order)
    → order.id ≡ db.next_id
    → IsCounted db
    → IsCounted (record db { orders = db.orders ++ order ∷ []; next_id = db.next_id + 1 })
create-IsCounted db order e c = record {
  counted = c.counted;
  placed = IsOf-new db.orders order db.tickets (rw e c.tickets_below) c.placed;
  tickets_below =
      weaken_tickets db.next_id (db.next_id + 1) (omega arith) db.tickets c.tickets_below;
  orders_below =
      All-append (λ (o : Order). o.id < db.next_id + 1) db.orders (order ∷ [])
        (weaken_orders db.next_id (db.next_id + 1) (omega arith) db.orders c.orders_below)
        (omega (arith, e), tt);
}

-- Whatever order has the pk is for the performance.
abbrev pub Owned : Db → Order → ℕ → Type 0
Owned db order performance =
    All (λ (o : Order). order.id ≡ o.id → o.performance ≡ some performance) db.orders
    × (order.id < db.next_id)

Owned-old :
    (order : Order) (performance : ℕ) (os : List Order)
    → All (λ (o : Order). o.id < order.id) os
    → All (λ (o : Order). order.id ≡ o.id → o.performance ≡ some performance) os
Owned-old order performance [] a = tt
Owned-old order performance (o ∷ os) a =
    (λ e. absurd (omega (arith, a.0, e)), Owned-old order performance os a.1)

pub create-Owned :
    (db : Db) (order : Order) (performance : ℕ)
    → order.id ≡ db.next_id
    → order.performance ≡ some performance
    → IsCounted db
    → Owned
        (record db { orders = db.orders ++ order ∷ []; next_id = db.next_id + 1 })
        order
        performance
create-Owned db order performance e of_performance c = (
  All-append (λ (o : Order). order.id ≡ o.id → o.performance ≡ some performance) db.orders
      (order ∷ []) (Owned-old order performance db.orders (rw e c.orders_below))
      (λ _. of_performance, tt),
  omega (arith, e),
)
