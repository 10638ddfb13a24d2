-- ===== src/Inventory/Counted/Voided.antt =====
-- orders/services.py's void_order, payments/services.py's refund and a scan: the sold places still count
-- the live general-admission tickets.
use boxoffice.Common.{
  ℕ, ◌+◌, ◌-◌, ◌≤◌, ◌<◌, ◌≡◌, refl, sym, ap, subst, ◌∙◌, inl, inr, Bool, true, not, ◌&&◌, Option,
  none, some, List, [], ◌∷◌, arith, ◌==◌, ==_iff, is_some, if◌then◌else◌, select, find_first,
  update_where, All, count_by, Bool-cases,
}
use boxoffice.Common.Updates.{All-update}
use boxoffice.Common.Results.{some-injective}
use boxoffice.Db.{Db, GaAllocation, Order, Ticket}
use boxoffice.Orders.Void.{
  is_order_live, live_tickets, ga_count, void_ticket, free_places, free_ga, void_order,
}
use boxoffice.Inventory.Counted.{is_ga_live, IsOf, IsCounted}

free_places-finds :
    (p performance n : ℕ) (xs : List GaAllocation) (a : GaAllocation)
    → find_first (λ a. a.performance == p) (free_places performance n xs) ≡ some a
    → (a₀ : GaAllocation) × (find_first (λ a. a.performance == p) xs ≡ some a₀)
      × (a.sold ≡ (if performance == p then a₀.sold - n else a₀.sold))
free_places-finds p performance n [] a e = absurd (cc e)
free_places-finds p performance n (x ∷ xs) a e = elim (Bool-cases (x.performance == p)) [
  | inl here ↦ (
    x,
    rw here,
    ground (
      arith,
      here,
      e,
      ==_iff x.performance p,
      ==_iff x.performance performance,
      ==_iff performance p,
    ),
  )
  | inr later ↦
      let (a₀, e₀, sold) = free_places-finds p performance n xs a (ground (arith, later)) in
      (a₀, rw later e₀, sold)
]

abbrev order_ga : ℕ → Ticket → Bool
order_ga order t = is_order_live order t && not (is_some t.seat)

ga_count-count :
    (order : ℕ) (ts : List Ticket)
    → ga_count (select (is_order_live order) ts) ≡ count_by (order_ga order) ts
ga_count-count order [] = refl
ga_count-count order (t ∷ ts) = ground (arith, ga_count-count order ts)

-- Voiding takes the order's tickets out of the count.
count-voided :
    (order p : ℕ) (ts : List Ticket)
    → All (λ t. t.order ≡ order → t.performance ≡ p) ts
    → count_by (is_ga_live p) (update_where (is_order_live order) void_ticket ts)
        + count_by (order_ga order) ts
      ≡ count_by (is_ga_live p) ts
count-voided order p [] a = refl
count-voided order p (t ∷ ts) a =
    ground (arith, count-voided order p ts a.1, a.0, ==_iff t.order order, ==_iff t.performance p)

fewer-live :
    (order p : ℕ) (ts : List Ticket)
    → count_by (is_ga_live p) (update_where (is_order_live order) void_ticket ts)
      ≤ count_by (is_ga_live p) ts
fewer-live order p [] = omega arith
fewer-live order p (t ∷ ts) = ground (arith, fewer-live order p ts)

-- The tickets of an order in the table are for its performance.
of_order :
    (test : Order → Bool) (os : List Order) (order : Order) (t : Ticket)
    → find_first test os ≡ some order
    → IsOf os t
    → t.order ≡ order.id
    → order.performance ≡ some t.performance
of_order test [] order t found a e = absurd (cc found)
of_order test (o ∷ os) order t found a e = elim (Bool-cases (test o)) [
  | inl here ↦
      let same : o ≡ order = some-injective (rw here at found) in
      subst (λ (o : Order). o.performance ≡ some t.performance) same
        (a.0 (e ∙ ap (λ (o : Order). o.id) (sym same)))
  | inr later ↦ of_order test os order t (rw later at found) a.1 e
]

tickets-of :
    (test : Order → Bool) (os : List Order) (order : Order) (p : ℕ)
    → find_first test os ≡ some order
    → order.performance ≡ some p
    → (ts : List Ticket) → All (IsOf os) ts
    → All (λ t. t.order ≡ order.id → t.performance ≡ p) ts
tickets-of test os order p found e [] a = tt
tickets-of test os order p found e (t ∷ ts) a = (
  λ owned. some-injective (sym (of_order test os order t found a.0 owned) ∙ e),
  tickets-of test os order p found e ts a.1,
)

pub kept :
    (P : Ticket → Type 0) (q : Ticket → Bool) (f : Ticket → Ticket) (ts : List Ticket)
    → ((t : Ticket) → P t → P (f t))
    → All (λ t. q t ≡ true → P t → P (f t)) ts
kept P q f [] h = tt
kept P q f (t ∷ ts) h = (λ _. h t, kept P q f ts h)

module _ (db : Db) (order : Order) (test : Order → Bool)
    (found : find_first test db.orders ≡ some order) (c : IsCounted db) where
  freed :
      (p performance : ℕ) (a : GaAllocation)
      → order.performance ≡ some performance
      → find_first
          (λ a. a.performance == p)
          (free_places performance (ga_count (live_tickets db order.id)) db.allocations)
        ≡ some a
      → count_by (is_ga_live p) (update_where (is_order_live order.id) void_ticket db.tickets)
        ≤ a.sold
  freed p performance a e here =
      let n = ga_count (live_tickets db order.id) in
      let (a₀, e₀, sold) = free_places-finds p performance n db.allocations a here in
      elim (Bool-cases (performance == p)) [
        | inl own ↦
            let same : performance ≡ p = (==_iff performance p).0 own in
            let all =
              tickets-of test db.orders order p found (e ∙ ap some same) db.tickets c.placed in
            let less : a.sold ≡ a₀.sold - n = rw own at sold in
            omega (
              arith,
              count-voided order.id p db.tickets all,
              ga_count-count order.id db.tickets,
              less,
              c.counted p a₀ e₀,
            )
        | inr other ↦
            let same : a.sold ≡ a₀.sold = rw other at sold in
            omega (arith, fewer-live order.id p db.tickets, same, c.counted p a₀ e₀)
      ]

  counted_after :
      (p : ℕ) (a : GaAllocation) (performance : Option ℕ)
      → order.performance ≡ performance
      → find_first
          (λ a. a.performance == p)
          (free_ga performance (ga_count (live_tickets db order.id)) db.allocations)
        ≡ some a
      → count_by (is_ga_live p) (update_where (is_order_live order.id) void_ticket db.tickets)
        ≤ a.sold
  counted_after p a none e here =
      omega (arith, fewer-live order.id p db.tickets, c.counted p a here)
  counted_after p a (some performance) e here =
      elim (Bool-cases (ga_count (live_tickets db order.id) == 0)) [
        | inl nothing ↦
            omega (arith, fewer-live order.id p db.tickets, c.counted p a (rw nothing at here))
        | inr places ↦ freed p performance a e (rw places at here)
      ]

  pub void_order-IsCounted : IsCounted (void_order db order).0
  unfolding void_order
  void_order-IsCounted = record {
    counted = λ p a here. counted_after p a order.performance refl here;
    placed =
        All-update (is_order_live order.id) void_ticket (IsOf db.orders) db.tickets
          (kept (IsOf db.orders) (is_order_live order.id) void_ticket db.tickets (λ t h. h))
          c.placed;
    tickets_below =
        All-update (is_order_live order.id) void_ticket (λ t. t.order < db.next_id) db.tickets
          (kept (λ t. t.order < db.next_id) (is_order_live order.id) void_ticket db.tickets
            (λ t h. h))
          c.tickets_below;
    orders_below = c.orders_below;
  }
