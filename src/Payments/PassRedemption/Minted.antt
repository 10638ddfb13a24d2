-- ===== src/Payments/PassRedemption/Minted.antt =====
-- payments/services.py: the fulfillment of a hold leaves the passes alone and mints as many tickets as
-- the hold has places or seats.
use boxoffice.Orders.Money.{ga_parts}
use boxoffice.Orders.Availability.{get_allocation, is_ticketed, seat_ids_of}
use boxoffice.Common.Counting.{count_by-append}
use boxoffice.Payments.Fulfill.{
  fulfill_ga, fulfill_reserved, fulfill_tickets, mint_seats, ga_tickets, new_ticket, create_item,
  seat_item, ticket_clashes, tokens_clash,
}
use boxoffice.Payments.PassRedemption.{ticket_count}
use boxoffice.Inventory.Minting.{step}
use boxoffice.Inventory.Fulfilled.{by_seat}
use boxoffice.Common.{
  ℕ, zero, suc, ◌+◌, ◌≡◌, refl, sym, ap, subst, inl, inr, Bool, some, List, [], ◌∷◌, arith, ltb,
  ◌==◌, ==_refl, Bool-cases, Option-cases, length, select, count_by, is_empty, insert_by,
}
use boxoffice.Common.Text.{Text}
use boxoffice.Common.Results.{ok, ok-injective, err-ne-ok}
use boxoffice.Db.{Db, HoldSeat, Hold, Order, Ticket}

abbrev pub is_of : Order → Ticket → Bool
is_of order t = t.order == order.id

module _ (new_token : ℕ → Text) (hold : Hold) (order : Order) where
  -- What the fulfillment of `n` places or seats does to the tables that a redemption reads.
  pub record MintsFor (n : ℕ) (db db' : Db) : Type 0 where
    pub pass_redemptions : db'.pass_redemptions ≡ db.pass_redemptions
    pub pass_purchases : db'.pass_purchases ≡ db.pass_purchases
    pub orders : db'.orders ≡ db.orders
    pub performance : db'.performance ≡ db.performance
    pub tickets : count_by (is_of order) db'.tickets ≡ count_by (is_of order) db.tickets + n

  count_by-ga_tickets :
      (n id : ℕ) → count_by (is_of order) (ga_tickets new_token n hold order id) ≡ n
  count_by-ga_tickets zero id = refl
  count_by-ga_tickets (suc n) id = ground (arith, count_by-ga_tickets n (id + 1), ==_refl order.id)

  length-insert_by :
      (x : HoldSeat) (xs : List HoldSeat)
      → length (insert_by (λ hs. hs.seat) x xs) ≡ suc (length xs)
  length-insert_by x [] = refl
  length-insert_by x (y ∷ xs) = ground (arith, length-insert_by x xs)

  length-by_seat : (xs : List HoldSeat) → length (by_seat xs) ≡ length xs
  length-by_seat [] = refl
  length-by_seat (x ∷ xs) = omega (arith, length-insert_by x (by_seat xs), length-by_seat xs)

  mint_seats-MintsFor :
      (seats : List HoldSeat) (db db' : Db)
      → mint_seats new_token db hold order seats ≡ ok db'
      → MintsFor (length seats) db db'
  unfolding mint_seats
  mint_seats-MintsFor [] db db' e =
      let same : db ≡ db' = ok-injective e in
      record {
        pass_redemptions = ap (λ (d : Db). d.pass_redemptions) (sym same);
        pass_purchases = ap (λ (d : Db). d.pass_purchases) (sym same);
        orders = ap (λ (d : Db). d.orders) (sym same);
        performance = ap (λ (d : Db). d.performance) (sym same);
        tickets = omega (arith, ap (λ (d : Db). count_by (is_of order) d.tickets) same);
      }
  mint_seats-MintsFor (hs ∷ seats) db db' e =
      elim (Bool-cases (
        ticket_clashes (create_item db (seat_item order hs))
          (new_ticket new_token db.next_id hold order (some hs.seat)))) [
            | inl taken ↦ absurd (err-ne-ok (rw (taken, mint_seats) at e))
            | inr free ↦
                let m =
                  mint_seats-MintsFor seats (step new_token hold order db hs) db'
                    (rw (free, mint_seats) at e) in
                record {
                  pass_redemptions = m.pass_redemptions;
                  pass_purchases = m.pass_purchases;
                  orders = m.orders;
                  performance = m.performance;
                  tickets = ground (
                    arith,
                    m.tickets,
                    ==_refl order.id,
                    count_by-append (is_of order) db.tickets
                        (new_ticket new_token db.next_id hold order (some hs.seat) ∷ []),
                  );
                }
          ]

  fulfill_ga-MintsFor :
      (tier q : ℕ) (db db' : Db)
      → fulfill_ga new_token db hold order tier q ≡ ok db'
      → MintsFor q db db'
  unfolding fulfill_ga
  fulfill_ga-MintsFor tier q db db' e = elim (Option-cases (get_allocation db hold.performance)) [
    | inl missing ↦ absurd (err-ne-ok (rw (missing, fulfill_ga) at e))
    | inr (a, found) ↦ elim (Bool-cases (ltb a.capacity (a.sold + q))) [
      | inl full ↦ absurd (err-ne-ok (rw (found, full, fulfill_ga) at e))
      | inr room ↦
          elim (Bool-cases
            (tokens_clash new_token db.tickets (ga_tickets new_token q hold order db.next_id))) [
              | inl clash ↦ absurd (err-ne-ok (rw (found, room, clash, fulfill_ga) at e))
              | inr fresh ↦
                  subst (λ d. MintsFor q db d)
                    (ok-injective (rw (found, room, fresh, fulfill_ga) at e))
                    (record {
                      pass_redemptions = refl;
                      pass_purchases = refl;
                      orders = refl;
                      performance = refl;
                      tickets = omega (
                        arith,
                        count_by-append (is_of order) db.tickets
                            (ga_tickets new_token q hold order db.next_id),
                        count_by-ga_tickets q db.next_id,
                      );
                    })
            ]
    ]
  ]

  fulfill_reserved-MintsFor :
      (db db' : Db)
      → fulfill_reserved new_token db hold order ≡ ok db'
      → MintsFor (length hold.hold_seats) db db'
  unfolding fulfill_reserved
  fulfill_reserved-MintsFor db db' e =
      elim (Bool-cases (
        is_empty
          (select (is_ticketed db hold.performance) (seat_ids_of (by_seat hold.hold_seats))))) [
            | inl free ↦
                subst (λ n. MintsFor n db db') (length-by_seat hold.hold_seats)
                  (mint_seats-MintsFor (by_seat hold.hold_seats) db db'
                    (rw (free, fulfill_reserved) at e))
            | inr taken ↦ absurd (err-ne-ok (rw (taken, fulfill_reserved) at e))
          ]

  pub fulfill_tickets-MintsFor :
      (db db' : Db)
      → fulfill_tickets new_token db hold order ≡ ok db'
      → MintsFor (ticket_count hold) db db'
  unfolding fulfill_tickets
  fulfill_tickets-MintsFor db db' e = elim (Option-cases (ga_parts hold)) [
    | inl reserved ↦
        rw (reserved, ticket_count)
          (fulfill_reserved-MintsFor db db' (rw (reserved, fulfill_tickets) at e))
    | inr ((tier, q), ga) ↦
        rw (ga, ticket_count) (fulfill_ga-MintsFor tier q db db' (rw (ga, fulfill_tickets) at e))
  ]
