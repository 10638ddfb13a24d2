-- ===== src/Inventory/Counted/Sold.antt =====
-- payments/services.py's fulfillment of a hold: each general-admission ticket that is minted is counted
-- as sold.
use boxoffice.Common.{
  ℕ, zero, suc, ◌+◌, ◌<◌, ◌≡◌, subst, inl, inr, none, some, List, [], ◌∷◌, arith, ltb, ◌==◌, ==_iff,
  is_empty, select, if◌then◌else◌, find_first, All, count_by, Bool-cases, Option-cases,
}
use boxoffice.Common.Counting.{All-append, count_by-append}
use boxoffice.Common.Text.{Text}
use boxoffice.Common.Results.{ok, ok-injective, err-ne-ok}
use boxoffice.Db.{Db, GaAllocation, HoldSeat, Hold, Order, Ticket}
use boxoffice.Orders.Availability.{get_allocation, is_ticketed, seat_ids_of}
use boxoffice.Orders.Money.{ga_parts}
use boxoffice.Payments.Fulfill.{
  new_ticket, ga_tickets, create_item, seat_item, ticket_clashes, tokens_clash, sell_places,
  with_ga, fulfill_ga, fulfill_reserved, fulfill_tickets, mint_seats,
}
use boxoffice.Inventory.Minting.{step}
use boxoffice.Inventory.Fulfilled.{by_seat}
use boxoffice.Inventory.Counted.{is_ga_live, IsOf, IsCounted, Owned, weaken_tickets, weaken_orders}

-- The rows of the sold performance have n places more sold.
sell_places-finds :
    (p performance n : ℕ) (xs : List GaAllocation) (a : GaAllocation)
    → find_first (λ a. a.performance == p) (sell_places performance n xs) ≡ some a
    → (a₀ : GaAllocation) × (find_first (λ a. a.performance == p) xs ≡ some a₀)
      × (a.sold ≡ a₀.sold + (if performance == p then n else 0))
sell_places-finds p performance n [] a e = absurd (cc e)
sell_places-finds p performance n (x ∷ xs) a e = elim (Bool-cases (x.performance == p)) [
  | inl here ↦ (
    x,
    rw here,
    ground (
      arith,
      here,
      e,
      ==_iff x.performance p,
      ==_iff x.performance performance,
      ==_iff performance p,
    ),
  )
  | inr later ↦
      let (a₀, e₀, sold) = sell_places-finds p performance n xs a (ground (arith, later)) in
      (a₀, rw later e₀, sold)
]

module _ (new_token : ℕ → Text) (hold : Hold) (order : Order) where
  ga_tickets-count :
      (p n id : ℕ)
      → count_by (is_ga_live p) (ga_tickets new_token n hold order id)
        ≡ (if hold.performance == p then n else 0)
  ga_tickets-count p zero id = ground arith
  ga_tickets-count p (suc n) id = ground (arith, ga_tickets-count p n (id + 1))

  ga_tickets-All :
      (P : Ticket → Type 0) (n id : ℕ)
      → ((k : ℕ) → P (new_ticket new_token k hold order none))
      → All P (ga_tickets new_token n hold order id)
  ga_tickets-All P zero id h = tt
  ga_tickets-All P (suc n) id h = (h id, ga_tickets-All P n (id + 1) h)

  with_ga-IsCounted :
      (db : Db) (tier q : ℕ)
      → IsCounted db
      → Owned db order hold.performance
      → IsCounted (with_ga new_token db hold order tier q)
  with_ga-IsCounted db tier q c own = record {
    counted = λ p a e.
        let (a₀, e₀, sold) = sell_places-finds p hold.performance q db.allocations a e in
        omega (
          arith,
          count_by-append (is_ga_live p) db.tickets (ga_tickets new_token q hold order db.next_id),
          ga_tickets-count p q db.next_id,
          sold,
          c.counted p a₀ e₀,
        );
    placed =
        All-append (IsOf db.orders) db.tickets (ga_tickets new_token q hold order db.next_id)
          c.placed (ga_tickets-All (IsOf db.orders) q db.next_id (λ k. own.0));
    tickets_below =
        All-append (λ t. t.order < db.next_id + q) db.tickets
          (ga_tickets new_token q hold order db.next_id)
          (weaken_tickets db.next_id (db.next_id + q) (omega arith) db.tickets c.tickets_below)
          (ga_tickets-All (λ t. t.order < db.next_id + q) q db.next_id (λ k. omega (arith, own.1)));
    orders_below = weaken_orders db.next_id (db.next_id + q) (omega arith) db.orders c.orders_below;
  }

  fulfill_ga-IsCounted :
      (db db' : Db) (tier q : ℕ)
      → IsCounted db
      → Owned db order hold.performance
      → fulfill_ga new_token db hold order tier q ≡ ok db'
      → IsCounted db'
  unfolding fulfill_ga
  fulfill_ga-IsCounted db db' tier q c own e =
      elim (Option-cases (get_allocation db hold.performance)) [
        | inl missing ↦ absurd (err-ne-ok (rw (missing, fulfill_ga) at e))
        | inr (a, found) ↦ elim (Bool-cases (ltb a.capacity (a.sold + q))) [
          | inl full ↦ absurd (err-ne-ok (rw (found, full, fulfill_ga) at e))
          | inr room ↦
              elim (Bool-cases (
                tokens_clash new_token db.tickets (ga_tickets new_token q hold order db.next_id))) [
                  | inl clash ↦ absurd (err-ne-ok (rw (found, room, clash, fulfill_ga) at e))
                  | inr fresh ↦
                      subst IsCounted (ok-injective (rw (found, room, fresh, fulfill_ga) at e))
                        (with_ga-IsCounted db tier q c own)
                ]
        ]
      ]

  step-IsCounted :
      (db : Db) (hs : HoldSeat)
      → IsCounted db
      → Owned db order hold.performance
      → IsCounted (step new_token hold order db hs)
  step-IsCounted db hs c own =
      let t : Ticket = new_ticket new_token db.next_id hold order (some hs.seat) in
      record {
        counted = λ p a e.
            ground (arith, count_by-append (is_ga_live p) db.tickets (t ∷ []), c.counted p a e);
        placed = All-append (IsOf db.orders) db.tickets (t ∷ []) c.placed (own.0, tt);
        tickets_below =
            All-append (λ t. t.order < db.next_id + 1) db.tickets (t ∷ [])
              (weaken_tickets db.next_id (db.next_id + 1) (omega arith) db.tickets c.tickets_below)
              (omega (arith, own.1), tt);
        orders_below =
            weaken_orders db.next_id (db.next_id + 1) (omega arith) db.orders c.orders_below;
      }

  mint_seats-IsCounted :
      (seats : List HoldSeat) (db db' : Db)
      → IsCounted db
      → Owned db order hold.performance
      → mint_seats new_token db hold order seats ≡ ok db'
      → IsCounted db'
  unfolding mint_seats
  mint_seats-IsCounted [] db db' c own e = subst IsCounted (ok-injective e) c
  mint_seats-IsCounted (hs ∷ seats) db db' c own e =
      elim (Bool-cases (
        ticket_clashes (create_item db (seat_item order hs))
          (new_ticket new_token db.next_id hold order (some hs.seat)))) [
            | inl taken ↦ absurd (err-ne-ok (rw (taken, mint_seats) at e))
            | inr free ↦
                mint_seats-IsCounted seats (step new_token hold order db hs) db'
                  (step-IsCounted db hs c own) (own.0, omega (arith, own.1))
                  (rw (free, mint_seats) at e)
          ]

  fulfill_reserved-IsCounted :
      (db db' : Db)
      → IsCounted db
      → Owned db order hold.performance
      → fulfill_reserved new_token db hold order ≡ ok db'
      → IsCounted db'
  unfolding fulfill_reserved
  fulfill_reserved-IsCounted db db' c own e =
      elim (Bool-cases (
        is_empty
          (select (is_ticketed db hold.performance) (seat_ids_of (by_seat hold.hold_seats))))) [
            | inl free ↦
                mint_seats-IsCounted (by_seat hold.hold_seats) db db' c own
                  (rw (free, fulfill_reserved) at e)
            | inr taken ↦ absurd (err-ne-ok (rw (taken, fulfill_reserved) at e))
          ]

  pub fulfill_tickets-IsCounted :
      (db db' : Db)
      → IsCounted db
      → Owned db order hold.performance
      → fulfill_tickets new_token db hold order ≡ ok db'
      → IsCounted db'
  unfolding fulfill_tickets
  fulfill_tickets-IsCounted db db' c own e = elim (Option-cases (ga_parts hold)) [
    | inl reserved ↦ fulfill_reserved-IsCounted db db' c own (rw (reserved, fulfill_tickets) at e)
    | inr ((tier, q), ga) ↦ fulfill_ga-IsCounted db db' tier q c own (rw (ga, fulfill_tickets) at e)
  ]
