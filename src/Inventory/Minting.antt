-- ===== src/Inventory/Minting.antt =====
-- What payments/services.py's _fulfill_ga and _fulfill_reserved write: the tickets and the places sold.
use boxoffice.Common.{
  ℕ, none, zero, suc, ◌+◌, ◌≤◌, ◌≡◌, refl, sym, ap, subst, inl, inr, Bool, false, ◌&&◌, ◌||◌, some,
  List, [], ◌∷◌, ◌++◌, arith, ◌==◌, Bool-cases, any, contains, count_by,
}
use boxoffice.Common.Text.{Text}
use boxoffice.Common.Results.{ok, ok-injective, err-ne-ok}
use boxoffice.Common.Keys.{Keyed, Keyed-weaken, Keyed-create}
use boxoffice.Db.{Ticket, Db, HoldSeat, Hold, Order}
use boxoffice.Common.Counting.{count_by-append, any-append, count_by-zero}
use boxoffice.Orders.Availability.{is_ticketed, is_live_for, seat_ids_of}
use boxoffice.Payments.Fulfill.{
  new_ticket, ga_tickets, create_item, seat_item, mint_seats, ticket_clashes,
}

abbrev pub SoldOnce : Db → Type 0
SoldOnce db = (p s : ℕ) → count_by (is_live_for p s) db.tickets ≤ 1

abbrev pub HasKeys : Db → Type 0
HasKeys db = Keyed (λ (t : Ticket). t.id) db.next_id db.tickets

pub or_false : (a b : Bool) → (a || b) ≡ false → (a ≡ false) × (b ≡ false)
or_false a b h = (ground (arith, h), ground (arith, h))

append_nil : (xs : List Ticket) → xs ++ [] ≡ xs
append_nil [] = refl
append_nil (x ∷ xs) = ap (λ l. x ∷ l) (append_nil xs)

module _ (new_token : ℕ → Text) (hold : Hold) (order : Order) where
  -- A general-admission ticket has no seat.
  pub any-ga_tickets :
      (p s n id : ℕ) → any (is_live_for p s) (ga_tickets new_token n hold order id) ≡ false
  any-ga_tickets p s zero id = refl
  any-ga_tickets p s (suc n) id = ground (arith, any-ga_tickets p s n (id + 1))

  append_one : (xs ys : List Ticket) (x : Ticket) → xs ++ x ∷ ys ≡ (xs ++ x ∷ []) ++ ys
  append_one [] ys x = refl
  append_one (y ∷ xs) ys x = ap (λ l. y ∷ l) (append_one xs ys x)

  -- Each gets the next pk.
  pub ga_tickets-Keyed :
      (n id : ℕ) (xs : List Ticket)
      → Keyed (λ (t : Ticket). t.id) id xs
      → Keyed (λ (t : Ticket). t.id) (id + n) (xs ++ ga_tickets new_token n hold order id)
  ga_tickets-Keyed zero id xs h =
      rw (append_nil xs) (Keyed-weaken (λ (t : Ticket). t.id) id (id + 0) (omega arith) xs h)
  ga_tickets-Keyed (suc n) id xs h =
      rw
        (append_one xs (ga_tickets new_token n hold order (id + 1))
          (new_ticket new_token id hold order none))
        (Keyed-weaken (λ (t : Ticket). t.id) (id + 1 + n) (id + suc n) (omega arith) _
          (ga_tickets-Keyed n (id + 1) (xs ++ new_ticket new_token id hold order none ∷ []) (
            Keyed-create (λ (t : Ticket). t.id) id xs (new_ticket new_token id hold order none) refl
              h)))

  -- What minting the seats in a list does to the tables.
  pub record Minted (seats : List HoldSeat) (db db' : Db) : Type 0 where
    pub performance : db'.performance ≡ db.performance
    pub allocations : db'.allocations ≡ db.allocations
    pub holds : db'.holds ≡ db.holds
    pub next_id : db.next_id ≤ db'.next_id
    pub ticketed :
        (p s : ℕ)
        → is_ticketed db' p s
          ≡ (is_ticketed db p s || (hold.performance == p && contains s (seat_ids_of seats)))
    pub sold_once : SoldOnce db → SoldOnce db'
    pub tickets_keyed : HasKeys db → HasKeys db'

  -- One turn of the loop, where the seat is free.
  abbrev pub step : Db → HoldSeat → Db
  step db hs = record (create_item db (seat_item order hs)) {
    tickets = db.tickets ++ new_ticket new_token db.next_id hold order (some hs.seat) ∷ [];
    next_id = db.next_id + 1;
  }

  pub step-ticketed :
      (db : Db) (hs : HoldSeat) (p s : ℕ)
      → is_ticketed (step db hs) p s
        ≡ (is_ticketed db p s || (hold.performance == p && s == hs.seat))
  step-ticketed db hs p s = rw any-append (ground arith)

  step-SoldOnce :
      (db : Db) (hs : HoldSeat)
      → is_ticketed db hold.performance hs.seat ≡ false
      → SoldOnce db
      → SoldOnce (step db hs)
  step-SoldOnce db hs free once p s =
      rw count_by-append
        (ground (arith, once p s, free, count_by-zero (is_live_for p s) db.tickets))

  pub mint_seats-Minted :
      (seats : List HoldSeat) (db db' : Db)
      → mint_seats new_token db hold order seats ≡ ok db'
      → Minted seats db db'
  unfolding mint_seats
  mint_seats-Minted [] db db' e =
      let same : db ≡ db' = ok-injective e in
      record {
        performance = ap (λ (d : Db). d.performance) (sym same);
        allocations = ap (λ (d : Db). d.allocations) (sym same);
        holds = ap (λ (d : Db). d.holds) (sym same);
        next_id = subst (λ (d : Db). db.next_id ≤ d.next_id) same (omega arith);
        ticketed = λ p s.
            subst
              (λ d. is_ticketed d p s ≡ (is_ticketed db p s || (hold.performance == p && false)))
              same (ground arith);
        sold_once = λ once. subst SoldOnce same once;
        tickets_keyed = λ k. subst HasKeys same k;
      }
  mint_seats-Minted (hs ∷ seats) db db' e =
      elim (Bool-cases (
        ticket_clashes (create_item db (seat_item order hs))
          (new_ticket new_token db.next_id hold order (some hs.seat)))) [
            | inl taken ↦ absurd (err-ne-ok (rw (taken, mint_seats) at e))
            | inr passes ↦
                let m = mint_seats-Minted seats (step db hs) db' (rw (passes, mint_seats) at e) in
                let free : is_ticketed db hold.performance hs.seat ≡ false =
                  (or_false _ _ passes).0 in
                record {
                  performance = m.performance;
                  allocations = m.allocations;
                  holds = m.holds;
                  next_id = omega (arith, m.next_id);
                  ticketed = λ p s. ground (arith, m.ticketed p s, step-ticketed db hs p s);
                  sold_once = λ once. m.sold_once (step-SoldOnce db hs free once);
                  tickets_keyed = λ k. m.tickets_keyed (
                      Keyed-create (λ (t : Ticket). t.id) db.next_id db.tickets
                        (new_ticket new_token db.next_id hold order (some hs.seat)) refl k);
                }
          ]
