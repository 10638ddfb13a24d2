-- ===== src/Inventory/Fulfilled.antt =====
-- payments/services.py's fulfill_hold as a whole: it keeps the inventory's invariant, and an active
-- hold is always fulfilled.
use boxoffice.Common.{
  ℕ, ◌+◌, ◌≡◌, refl, sym, subst, inl, inr, ◌||◌, some, List, [], ◌∷◌, ◌++◌, arith, ltb, leb, ◌==◌,
  Bool-cases, Option-cases, select, find_first, contains, order_by, is_empty, insert_by,
}
use boxoffice.Common.Text.{Text}
use boxoffice.Common.Results.{ok, ok-injective, err-ne-ok, OnOk, OnOk-ok, Result-cases}
use boxoffice.Db.{Db, HoldSeat, Hold, Order}
use boxoffice.Orders.Availability.{get_allocation, is_ticketed, seat_ids_of}
use boxoffice.Orders.Money.{ga_parts}
use boxoffice.Payments.Fulfill.{
  Purchase, fulfill_ga, fulfill_reserved, fulfill_tickets, delete_hold, attach_guest, create_order,
  order_of, settle, fulfill_hold, order_clashes, ga_tickets, tokens_clash,
}
use boxoffice.Inventory.{IsSound}
use boxoffice.Inventory.Same.{SameInventory, same-IsSound, attach_guest-same, settle-same}
use boxoffice.Inventory.Minting.{mint_seats-Minted}
use boxoffice.Inventory.Sales.{IsLive, mint_seats-IsSound, with_ga-IsSound}

pub ga_parts-quantity :
    (hold : Hold) (tier q : ℕ) → ga_parts hold ≡ some (tier, q) → hold.quantity ≡ some q
ga_parts-quantity hold tier q e = ground arith

abbrev pub by_seat : List HoldSeat → List HoldSeat
by_seat = order_by (λ hs. hs.seat)

pub contains-insert_by :
    (k : ℕ) (x : HoldSeat) (xs : List HoldSeat)
    → contains k (seat_ids_of (insert_by (λ hs. hs.seat) x xs))
      ≡ (k == x.seat || contains k (seat_ids_of xs))
contains-insert_by k x [] = refl
contains-insert_by k x (y ∷ xs) = ground (arith, contains-insert_by k x xs)

pub contains-by_seat :
    (k : ℕ) (xs : List HoldSeat)
    → contains k (seat_ids_of (by_seat xs)) ≡ contains k (seat_ids_of xs)
contains-by_seat k [] = refl
contains-by_seat k (x ∷ xs) = rw (contains-insert_by k x (by_seat xs), contains-by_seat k xs)

module _ (new_token : ℕ → Text) (now : ℕ) (db : Db) (hold : Hold) (order : Order)
    (v : IsSound now db) (l : IsLive now db hold) where
  fulfill_ga-IsSound :
      (tier q : ℕ) (db' : Db)
      → hold.quantity ≡ some q
      → fulfill_ga new_token db hold order tier q ≡ ok db'
      → IsSound now (delete_hold db' hold)
  unfolding fulfill_ga
  fulfill_ga-IsSound tier q db' h e = elim (Option-cases (get_allocation db hold.performance)) [
    | inl missing ↦ absurd (err-ne-ok (rw (missing, fulfill_ga) at e))
    | inr (a, found) ↦ elim (Bool-cases (ltb a.capacity (a.sold + q))) [
      | inl full ↦ absurd (err-ne-ok (rw (found, full, fulfill_ga) at e))
      | inr room ↦
          elim (Bool-cases
            (tokens_clash new_token db.tickets (ga_tickets new_token q hold order db.next_id))) [
              | inl clash ↦ absurd (err-ne-ok (rw (found, room, clash, fulfill_ga) at e))
              | inr fresh ↦
                  subst (λ d. IsSound now (delete_hold d hold))
                    (ok-injective (rw (found, room, fresh, fulfill_ga) at e))
                    (with_ga-IsSound new_token now db hold order v l tier q h)
            ]
    ]
  ]

  fulfill_reserved-IsSound :
      (db' : Db)
      → fulfill_reserved new_token db hold order ≡ ok db'
      → IsSound now (delete_hold db' hold)
  unfolding fulfill_reserved
  fulfill_reserved-IsSound db' e =
      elim (Bool-cases (
        is_empty
          (select (is_ticketed db hold.performance) (seat_ids_of (by_seat hold.hold_seats))))) [
            | inl free ↦
                mint_seats-IsSound new_token now db hold order v l db' (by_seat hold.hold_seats)
                  (λ s c. rw contains-by_seat at c)
                  (mint_seats-Minted new_token hold order (by_seat hold.hold_seats) db db'
                    (rw (free, fulfill_reserved) at e))
            | inr taken ↦ absurd (err-ne-ok (rw (taken, fulfill_reserved) at e))
          ]

  pub fulfill_tickets-IsSound :
      (db' : Db)
      → fulfill_tickets new_token db hold order ≡ ok db'
      → IsSound now (delete_hold db' hold)
  unfolding fulfill_tickets
  fulfill_tickets-IsSound db' e = elim (Option-cases (ga_parts hold)) [
    | inl reserved ↦ fulfill_reserved-IsSound db' (rw (reserved, fulfill_tickets) at e)
    | inr ((tier, q), ga) ↦
        fulfill_ga-IsSound tier q db' (ga_parts-quantity hold tier q ga)
          (rw (ga, fulfill_tickets) at e)
  ]

module _ (new_token : ℕ → Text) (now : ℕ) (db : Db) (hold : Hold) (purchase : Purchase) where
  unfoldable pub with_guest : Db
  with_guest = (attach_guest db hold purchase now).0

  unfoldable pub new_order : Order
  unfolding with_guest
  new_order = order_of new_token db with_guest hold purchase (attach_guest db hold purchase now).1

  unfoldable pub with_order : Db
  unfolding new_order
  with_order = record with_guest {
    orders = with_guest.orders ++ new_order ∷ [];
    next_id = with_guest.next_id + 1;
  }

  pub with_order-same : SameInventory db with_order
  unfolding with_order
  with_order-same =
      let s = attach_guest-same db hold purchase now in
      record {
        performance = s.performance;
        allocations = s.allocations;
        holds = s.holds;
        tickets = s.tickets;
        next_id = omega (arith, s.next_id);
      }

module _ (new_token : ℕ → Text) (now : ℕ) (db : Db) (hold : Hold) (purchase : Purchase)
    (v : IsSound now db) (l : IsLive now db hold) where
  abbrev guested : Db
  guested = with_guest new_token now db hold purchase

  abbrev ordered : Db
  ordered = with_order new_token now db hold purchase

  abbrev placed : Order
  placed = new_order new_token now db hold purchase

  pub with_order-IsLive : IsLive now ordered hold
  with_order-IsLive = record {
    test = l.test;
    found =
        subst (λ hs. find_first l.test hs ≡ some hold)
          (sym (with_order-same new_token now db hold purchase).holds) l.found;
    active = l.active;
  }

  pub settled :
      (minted : Db)
      → fulfill_tickets new_token ordered hold placed ≡ ok minted
      → IsSound now (settle minted hold placed purchase)
  settled minted e =
      same-IsSound now (delete_hold minted hold) (settle minted hold placed purchase)
        (settle-same minted hold placed purchase)
        (fulfill_tickets-IsSound new_token now ordered hold placed
          (same-IsSound now db ordered (with_order-same new_token now db hold purchase) v)
          with_order-IsLive minted e)

  pub fulfill_hold-OnOk : OnOk (IsSound now) (fulfill_hold new_token db hold purchase now)
  unfolding fulfill_hold create_order with_order
  fulfill_hold-OnOk = elim (Bool-cases (leb hold.expires_at now)) [
    | inl expired ↦ rw expired tt
    | inr running ↦ rw running (elim (Bool-cases (order_clashes guested placed)) [
      | inl taken ↦ rw taken tt
      | inr new ↦ rw new (elim (Result-cases (fulfill_tickets new_token ordered hold placed)) [
        | inl (failure, e) ↦ rw e tt
        | inr (minted, e) ↦ rw e (settled minted e)
      ])
    ])
  ]

-- A successful fulfill_hold of an active hold in the table keeps the invariant.
pub fulfill_hold-IsSound :
    (new_token : ℕ → Text) (now : ℕ) (db : Db) (hold : Hold) (purchase : Purchase) {db' : Db}
    {order : Order}
    → IsSound now db
    → IsLive now db hold
    → fulfill_hold new_token db hold purchase now ≡ ok (db', order)
    → IsSound now db'
fulfill_hold-IsSound new_token now db hold purchase v l e =
    OnOk-ok (IsSound now) _ (fulfill_hold-OnOk new_token now db hold purchase v l) e
