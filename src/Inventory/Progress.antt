-- ===== src/Inventory/Progress.antt =====
-- An active hold reserves its inventory: payments/services.py's fulfill_hold cannot find that
-- availability has changed, and cannot violate the constraint on live tickets.
use boxoffice.Common.{
  ◌++◌, ℕ, zero, suc, ◌+◌, ◌≤◌, ◌<◌, ◌≡◌, refl, sym, ap, subst, ◌∙◌, inl, inr, Bool, true, false,
  not, ◌&&◌, Option, none, some, List, [], ◌∷◌, arith, ltb, leb, ◌==◌, ==_iff, ==_refl,
  Option-cases, is_some, select, find_first, any, contains, is_empty, insert_by,
}
use boxoffice.Common.Text.{Text, is_blank, text_eq}
use boxoffice.Common.Results.{ok}
use boxoffice.Db.{Db, GaAllocation, HoldSeat, Hold, Order}
use boxoffice.Guests.{get_or_create_for_email, record_marketing_opt_in}
use boxoffice.Orders.Availability.{holds_seat, get_allocation, is_ticketed, seat_ids_of}
use boxoffice.Orders.Money.{ga_parts, hold_grand_total}
use boxoffice.Payments.Fulfill.{
  bears_token, has_order_token, ga_tickets, tokens_clash, Purchase, with_ga, fulfill_ga,
  fulfill_reserved, fulfill_tickets, mint_seats, attach_guest, create_order, order_clashes,
  new_ticket, settle, fulfill_hold, session_taken, has_session,
}
use boxoffice.Inventory.{IsSound, is_holding}
use boxoffice.Common.Counting.{any_of_found, any-append}
use boxoffice.Inventory.Same.{SameInventory, same-IsSound, attach_guest-same}
use boxoffice.Inventory.Minting.{step, step-ticketed}
use boxoffice.Inventory.Sales.{IsLive, fewer_held}
use boxoffice.Inventory.Fulfilled.{
  by_seat, contains-insert_by, contains-by_seat, ga_parts-quantity, new_order, with_guest,
  with_order, with_order-same, with_order-IsLive,
}

-- No seat is listed twice: unique_seat_per_hold.
abbrev pub Distinct : List ℕ → Type 0
Distinct [] = Unit
Distinct (x ∷ xs) = (contains x xs ≡ false) × Distinct xs

-- What the tables guarantee of a hold.
pub record IsPlaced (db : Db) (hold : Hold) : Type 0 where
  pub distinct : Distinct (seat_ids_of hold.hold_seats)
  pub allocated :
      is_some hold.quantity ≡ true
      → (a : GaAllocation) × (get_allocation db hold.performance ≡ some a)

Distinct-insert_by :
    (x : HoldSeat) (xs : List HoldSeat)
    → contains x.seat (seat_ids_of xs) ≡ false
    → Distinct (seat_ids_of xs)
    → Distinct (seat_ids_of (insert_by (λ hs. hs.seat) x xs))
Distinct-insert_by x [] new d = (refl, tt)
Distinct-insert_by x (y ∷ xs) new d =
    ground (arith, d.0, d.1, contains-insert_by y.seat x xs, Distinct-insert_by x xs)

Distinct-by_seat :
    (xs : List HoldSeat) → Distinct (seat_ids_of xs) → Distinct (seat_ids_of (by_seat xs))
Distinct-by_seat [] d = tt
Distinct-by_seat (x ∷ xs) d =
    Distinct-insert_by x (by_seat xs) (contains-by_seat x.seat xs ∙ d.0) (Distinct-by_seat xs d.1)

-- The random tokens are new: no two are the same, and no order or ticket has one that is yet to be
-- given.
pub record AreNew (new_token : ℕ → Text) (db : Db) : Type 0 where
  pub distinct : (i j : ℕ) → text_eq (new_token i) (new_token j) ≡ true → i ≡ j
  pub orders : (i : ℕ) → db.next_id ≤ i → any (has_order_token (new_token i)) db.orders ≡ false
  pub tickets : (i : ℕ) → db.next_id ≤ i → any (bears_token (new_token i)) db.tickets ≡ false

-- They still are once an order has taken the next pk.
create-AreNew :
    (new_token : ℕ → Text) (db guested : Db) (order : Order)
    → guested.orders ≡ db.orders
    → guested.tickets ≡ db.tickets
    → db.next_id ≤ guested.next_id
    → order.token ≡ new_token guested.next_id
    → AreNew new_token db
    → AreNew new_token
        (record guested { orders = guested.orders ++ order ∷ []; next_id = guested.next_id + 1 })
create-AreNew new_token db guested order orders tickets le token new = record {
  distinct = new.distinct;
  orders = λ i later.
      rw (any-append (has_order_token (new_token i)) guested.orders (order ∷ []), orders, token)
        (ground (arith, new.orders i, new.distinct guested.next_id i, le, later));
  tickets = λ i later. rw tickets (new.tickets i (omega (arith, le, later)));
}

-- Nothing passes a test that every listed number fails.
select_none :
    (p : ℕ → Bool) (xs : List ℕ)
    → ((s : ℕ) → contains s xs ≡ true → p s ≡ false)
    → is_empty (select p xs) ≡ true
select_none p [] h = refl
select_none p (x ∷ xs) h =
    ground (arith, h x, ==_refl x, select_none p xs (λ s c. h s (ground (arith, c))))

module _ (new_token : ℕ → Text) (hold : Hold) (order : Order) where
  still_free :
      (db : Db) (hs : HoldSeat) (seats : List HoldSeat)
      → Distinct (seat_ids_of (hs ∷ seats))
      → ((s : ℕ)
          → contains s (seat_ids_of (hs ∷ seats)) ≡ true
          → is_ticketed db hold.performance s ≡ false)
      → (s : ℕ) → contains s (seat_ids_of seats) ≡ true
      → is_ticketed (step new_token hold order db hs) hold.performance s ≡ false
  still_free db hs seats d free s c = ground (
    arith,
    step-ticketed new_token hold order db hs hold.performance s,
    free s,
    ==_iff s hs.seat,
    d.0,
  )

  step-AreNew :
      (db : Db) (hs : HoldSeat)
      → AreNew new_token db
      → AreNew new_token (step new_token hold order db hs)
  step-AreNew db hs new = record {
    distinct = new.distinct;
    orders = λ i le. new.orders i (omega (arith, le));
    tickets = λ i le. ground (
      arith,
      any-append (bears_token (new_token i)) db.tickets
          (new_ticket new_token db.next_id hold order (some hs.seat) ∷ []),
      new.tickets i,
      new.distinct db.next_id i,
      le,
    );
  }

  later_tokens :
      (n id i : ℕ)
      → ((j k : ℕ) → text_eq (new_token j) (new_token k) ≡ true → j ≡ k)
      → i < id
      → any (bears_token (new_token i)) (ga_tickets new_token n hold order id) ≡ false
  later_tokens zero id i distinct le = refl
  later_tokens (suc n) id i distinct le =
      ground (arith, distinct id i, later_tokens n (id + 1) i distinct, le)

  no_clash :
      (n id : ℕ) (db : Db)
      → AreNew new_token db
      → db.next_id ≤ id
      → tokens_clash new_token db.tickets (ga_tickets new_token n hold order id) ≡ false
  no_clash zero id db new le = refl
  no_clash (suc n) id db new le =
      rw (new.tickets id le, later_tokens n (id + 1) id new.distinct (omega arith))
        (no_clash n (id + 1) db new (omega (arith, le)))

  mint_seats_total :
      (seats : List HoldSeat) (db : Db)
      → AreNew new_token db
      → Distinct (seat_ids_of seats)
      → ((s : ℕ)
          → contains s (seat_ids_of seats) ≡ true
          → is_ticketed db hold.performance s ≡ false)
      → (db' : Db) × (mint_seats new_token db hold order seats ≡ ok db')
  unfolding mint_seats
  mint_seats_total [] db new d free = (db, refl)
  mint_seats_total (hs ∷ seats) db new d free =
      let here : is_ticketed db hold.performance hs.seat ≡ false = free hs.seat (ground arith) in
      let (db', e) =
        mint_seats_total seats (step new_token hold order db hs) (step-AreNew db hs new) d.1
          (still_free db hs seats d free) in
      (db', rw (here, new.tickets db.next_id (omega arith), mint_seats) e)

module _ (new_token : ℕ → Text) (now : ℕ) (db : Db) (hold : Hold) (order : Order)
    (v : IsSound now db) (l : IsLive now db hold) (placed : IsPlaced db hold)
    (new : AreNew new_token db) where
  seat_free : (s : ℕ) → holds_seat s hold ≡ true → is_ticketed db hold.performance s ≡ false
  seat_free s h =
      let q : is_holding hold.performance s now hold ≡ true = ground (arith, l.active, h) in
      v.held_not_sold hold.performance s
        (any_of_found l.test (is_holding hold.performance s now) db.holds hold l.found q)

  fulfill_reserved_total : (db' : Db) × (fulfill_reserved new_token db hold order ≡ ok db')
  unfolding fulfill_reserved
  fulfill_reserved_total =
      let none_sold =
        select_none (is_ticketed db hold.performance) (seat_ids_of (by_seat hold.hold_seats))
          (λ s c. seat_free s (rw contains-by_seat at c)) in
      let (db', e) =
        mint_seats_total new_token hold order (by_seat hold.hold_seats) db new
          (Distinct-by_seat hold.hold_seats placed.distinct)
          (λ s c. seat_free s (rw contains-by_seat at c)) in
      (db', rw (none_sold, fulfill_reserved) e)

  room_left :
      (q : ℕ) (a : GaAllocation)
      → hold.quantity ≡ some q
      → get_allocation db hold.performance ≡ some a
      → ltb a.capacity (a.sold + q) ≡ false
  room_left q a h found =
      ground (arith, fewer_held now db hold v l q h, v.ga_fits hold.performance a found)

  fulfill_ga_total :
      (tier q : ℕ)
      → hold.quantity ≡ some q
      → (db' : Db) × (fulfill_ga new_token db hold order tier q ≡ ok db')
  unfolding fulfill_ga
  fulfill_ga_total tier q h =
      let (a, found) = placed.allocated (rw h) in
      (
        with_ga new_token db hold order tier q,
        rw (
          found,
          room_left q a h found,
          no_clash new_token hold order q db.next_id db new (omega arith),
          fulfill_ga,
        ),
      )

  pub fulfill_tickets_total : (db' : Db) × (fulfill_tickets new_token db hold order ≡ ok db')
  unfolding fulfill_tickets
  fulfill_tickets_total = elim (Option-cases (ga_parts hold)) [
    | inl reserved ↦
        let (db', e) = fulfill_reserved_total in (db', rw (reserved, fulfill_tickets) e)
    | inr ((tier, q), ga) ↦
        let (db', e) = fulfill_ga_total tier q (ga_parts-quantity hold tier q ga) in
        (db', rw (ga, fulfill_tickets) e)
  ]

attach_guest-orders :
    (db : Db) (hold : Hold) (purchase : Purchase) (now : ℕ)
    → (attach_guest db hold purchase now).0.orders ≡ db.orders
unfolding get_or_create_for_email record_marketing_opt_in
attach_guest-orders db hold purchase now = ground arith

session_taken-same :
    (db db' : Db)
    → db'.orders ≡ db.orders
    → (organization : ℕ) (session : Option Text)
    → session_taken db' organization session ≡ session_taken db organization session
session_taken-same db db' e organization none = refl
session_taken-same db db' e organization (some s) =
    ap (λ os. not (is_blank s) && any (has_session organization s) os) e

-- The tables guarantee the same of the hold once the order is there.
IsPlaced-same :
    (db db' : Db) (hold : Hold) → SameInventory db db' → IsPlaced db hold → IsPlaced db' hold
IsPlaced-same db db' hold same p = record {
  distinct = p.distinct;
  allocated = λ h.
      let (a, found) = p.allocated h in
      (
        a,
        subst (λ l. find_first (λ a. a.performance == hold.performance) l ≡ some a)
            (sym same.allocations) found,
      );
}

module _ (new_token : ℕ → Text) (now : ℕ) (db : Db) (hold : Hold) (purchase : Purchase)
    (v : IsSound now db) (l : IsLive now db hold) (placed : IsPlaced db hold)
    (new : AreNew new_token db)
    (free : session_taken db hold.organization purchase.stripe_checkout_session_id ≡ false) where
  abbrev placed_order : Order
  placed_order = new_order new_token now db hold purchase

  abbrev ordered : Db
  ordered = with_order new_token now db hold purchase

  unclashed : order_clashes (with_guest new_token now db hold purchase) placed_order ≡ false
  unfolding with_guest new_order
  unclashed =
      rw
        (session_taken-same db (with_guest new_token now db hold purchase)
            (attach_guest-orders db hold purchase now) hold.organization
            purchase.stripe_checkout_session_id
          ∙ free)
        (subst
          (λ os.
            any (has_order_token (new_token (with_guest new_token now db hold purchase).next_id)) os
            ≡ false)
          (sym (attach_guest-orders db hold purchase now))
          (new.orders (with_guest new_token now db hold purchase).next_id
            (attach_guest-same db hold purchase now).next_id))

  ordered-AreNew : AreNew new_token ordered
  unfolding with_order new_order
  ordered-AreNew =
      let same = attach_guest-same db hold purchase now in
      create-AreNew new_token db (with_guest new_token now db hold purchase) placed_order
        (attach_guest-orders db hold purchase now) same.tickets same.next_id refl new

  minted : (db' : Db) × (fulfill_tickets new_token ordered hold placed_order ≡ ok db')
  minted =
      let same = with_order-same new_token now db hold purchase in
      fulfill_tickets_total new_token now ordered hold placed_order
        (same-IsSound now db ordered same v) (with_order-IsLive new_token now db hold purchase v l)
        (IsPlaced-same db ordered hold same placed) ordered-AreNew

  not_expired : leb hold.expires_at now ≡ false
  not_expired = ground (arith, l.active)

-- An active hold that is in the table is fulfilled, whatever the buyer data, if the tables keep the
-- inventory's invariant, the hold lists each seat once and has an allocation if it is for places, its
-- Stripe session has no order yet and the random tokens are new: the call returns an order, for the
-- hold's grand total.
pub fulfill_hold_succeeds :
    (new_token : ℕ → Text) (now : ℕ) (db : Db) (hold : Hold) (purchase : Purchase)
    → IsSound now db
    → IsLive now db hold
    → IsPlaced db hold
    → AreNew new_token db
    → session_taken db hold.organization purchase.stripe_checkout_session_id ≡ false
    → (db' : Db) × (o : Order) × (fulfill_hold new_token db hold purchase now ≡ ok (db', o))
      × (o.total ≡ hold_grand_total db hold)
unfolding fulfill_hold create_order with_order
fulfill_hold_succeeds new_token now db hold purchase v l placed new free =
    let (db', e) = minted new_token now db hold purchase v l placed new free in
    let order = placed_order new_token now db hold purchase v l placed new free in
    (
      settle db' hold order purchase,
      order,
      rw
          (
            not_expired new_token now db hold purchase v l placed new free,
            unclashed new_token now db hold purchase v l placed new free,
            e,
          )
          refl,
      refl,
    )
