-- ===== src/Inventory/Sales.antt =====
-- payments/services.py's fulfill_hold keeps the inventory's invariant: the places and seats of the
-- hold become sold in the same transaction that deletes the hold.
use boxoffice.Common.{
  ℕ, ◌+◌, ◌≤◌, ◌≡◌, refl, sym, ap, subst, ◌∙◌, inl, inr, Bool, true, false, not, ◌&&◌, ◌||◌, some,
  List, [], ◌∷◌, arith, ◌==◌, if◌then◌else◌, ==_iff, &&_split, Bool-cases, select, find_first, any,
  contains,
}
use boxoffice.Common.Text.{Text}
use boxoffice.Db.{Db, GaAllocation, HoldSeat, Hold, Order}
use mathlib.Core.Path.{ap₂}
use mathlib.Core.Bool.{false≢true}
use boxoffice.Common.Counting.{
  count_by-append, any-append, count_by-zero, any_of_count, any-select, count_by-delete,
  sum_by-delete, select-select,
}
use boxoffice.Orders.Availability.{
  is_active, holds_seat, get_allocation, is_ticketed, is_live_for, held_quantity, seat_ids_of,
}
use boxoffice.Payments.Fulfill.{with_ga, ga_tickets, sell_places, delete_hold}
use boxoffice.Inventory.{IsSound, ga_held, is_holding}
use boxoffice.Inventory.Changes.{is_ga_holding, ga_held-eq, delete-IsSound}
use boxoffice.Inventory.Same.{All-weaken, SameInventory, same-IsSound}
use boxoffice.Inventory.Minting.{any-ga_tickets, ga_tickets-Keyed, Minted}

-- The hold is in the table, found by some query, and active.
pub record IsLive (now : ℕ) (db : Db) (hold : Hold) : Type 0 where
  pub test : Hold → Bool
  pub found : find_first test db.holds ≡ some hold
  pub active : is_active now hold ≡ true

abbrev keep : Hold → Hold → Bool
keep hold h = not (h.id == hold.id)

keep_self : (hold : Hold) → keep hold hold ≡ false
keep_self hold = ground arith

module _ (now : ℕ) (db : Db) (hold : Hold) (v : IsSound now db) (l : IsLive now db hold) where
  -- Once the hold is gone, nobody holds its seats.
  pub nobody_holds :
      (s : ℕ)
      → holds_seat s hold ≡ true
      → any (is_holding hold.performance s now) (select (keep hold) db.holds) ≡ false
  nobody_holds s h =
      let q : is_holding hold.performance s now hold ≡ true = ground (arith, l.active, h) in
      let less =
        count_by-delete l.test (keep hold) (is_holding hold.performance s now) db.holds hold l.found
          q (keep_self hold) in
      rw any-select (any_of_count _ db.holds (omega (arith, less, v.held_once hold.performance s)))

  -- ... and its places are no longer held.
  pub fewer_held :
      (n : ℕ)
      → hold.quantity ≡ some n
      → ga_held (delete_hold db hold) hold.performance now + n ≤ ga_held db hold.performance now
  fewer_held n h =
      let q : is_ga_holding hold.performance now hold ≡ true = ground (arith, l.active, h) in
      let less =
        sum_by-delete held_quantity l.test (keep hold) (is_ga_holding hold.performance now) db.holds
          hold l.found q (keep_self hold) in
      rw
        (
          ga_held-eq (delete_hold db hold) hold.performance now,
          ga_held-eq db hold.performance now,
          select-select,
        )
        (ground (arith, less, h))

  gone : IsSound now (delete_hold db hold)
  gone = delete-IsSound (keep hold) now db v

-- The allocation of a performance after a sale.
sell_places-first :
    (p performance q : ℕ) (xs : List GaAllocation) (a : GaAllocation)
    → find_first (λ a. a.performance == p) (sell_places performance q xs) ≡ some a
    → (a₀ : GaAllocation) × (find_first (λ a. a.performance == p) xs ≡ some a₀)
      × (a.capacity ≡ a₀.capacity)
      × (a.sold ≡ a₀.sold + (if performance == p then q else 0))
sell_places-first p performance q [] a e = absurd (cc e)
sell_places-first p performance q (x ∷ xs) a e = elim (Bool-cases (x.performance == p)) [
  | inl here ↦ (x, rw here, ground (arith, here), ground (arith, here))
  | inr later ↦
      let (a₀, e₀, cap, sold) = sell_places-first p performance q xs a (ground (arith, later)) in
      (a₀, rw later e₀, cap, sold)
]

module _ (new_token : ℕ → Text) (now : ℕ) (db : Db) (hold : Hold) (order : Order)
    (v : IsSound now db) (l : IsLive now db hold) where
  -- A seat that a hold still has is not among those that were minted.
  Minted-not_held :
      (db' : Db) (seats : List HoldSeat)
      → ((s : ℕ) → contains s (seat_ids_of seats) ≡ true → holds_seat s hold ≡ true)
      → Minted new_token hold order seats db db'
      → (p s : ℕ) → any (is_holding p s now) (select (keep hold) db.holds) ≡ true
      → is_ticketed db' p s ≡ false
  Minted-not_held db' seats sub m p s e =
      let unsold = (gone now db hold v l).held_not_sold p s e in
      elim (Bool-cases (hold.performance == p && contains s (seat_ids_of seats))) [
        | inl both ↦
            let (here, minted) =
              &&_split (hold.performance == p) (contains s (seat_ids_of seats)) both in
            let e' =
              subst (λ k. any (is_holding k s now) (select (keep hold) db.holds) ≡ true)
                (sym ((==_iff hold.performance p).0 here)) e in
            absurd (false≢true (sym (nobody_holds now db hold v l s (sub s minted)) ∙ e'))
        | inr neither ↦ m.ticketed p s ∙ ap₂ ◌||◌ unsold neither
      ]

  pub mint_seats-IsSound :
      (db' : Db) (seats : List HoldSeat)
      → ((s : ℕ) → contains s (seat_ids_of seats) ≡ true → holds_seat s hold ≡ true)
      → Minted new_token hold order seats db db'
      → IsSound now (delete_hold db' hold)
  unfolding ga_held
  mint_seats-IsSound db' seats sub m =
      let rest = record (delete_hold db' hold) { tickets = db.tickets } in
      let same : SameInventory (delete_hold db hold) rest = record {
        performance = m.performance;
        allocations = m.allocations;
        holds = ap (select (keep hold)) m.holds;
        tickets = refl;
        next_id = m.next_id;
      } in
      let base = same-IsSound now (delete_hold db hold) rest same (gone now db hold v l) in
      record {
        scoped = base.scoped;
        ga_fits = base.ga_fits;
        held_once = base.held_once;
        held_not_sold = λ p s e.
            Minted-not_held db' seats sub m p s
              (subst (λ hs. any (is_holding p s now) (select (keep hold) hs) ≡ true) m.holds e);
        sold_once = m.sold_once v.sold_once;
        key_once = base.key_once;
        keys = base.keys;
        tickets_keyed = m.tickets_keyed v.tickets_keyed;
      }

  ga_held-mint :
      (tier q p : ℕ)
      → ga_held (delete_hold (with_ga new_token db hold order tier q) hold) p now
        ≡ ga_held (delete_hold db hold) p now
  unfolding ga_held
  ga_held-mint tier q p = refl

  with_ga-ga_fits :
      (tier q : ℕ)
      → hold.quantity ≡ some q
      → (p : ℕ) (a : GaAllocation)
      → get_allocation (with_ga new_token db hold order tier q) p ≡ some a
      → a.sold + ga_held (delete_hold (with_ga new_token db hold order tier q) hold) p now
        ≤ a.capacity
  with_ga-ga_fits tier q h p a e =
      let (a₀, e₀, cap, sold) = sell_places-first p hold.performance q db.allocations a e in
      elim (Bool-cases (hold.performance == p)) [
        | inl here ↦
            let same = (==_iff hold.performance p).0 here in
            let e' =
              subst (λ k. find_first (λ a. a.performance == k) db.allocations ≡ some a₀) (sym same)
                e₀ in
            ground (
              arith,
              here,
              same,
              cap,
              sold,
              ga_held-mint tier q p,
              v.ga_fits hold.performance a₀ e',
              fewer_held now db hold v l q h,
            )
        | inr other ↦
            ground (
              arith,
              other,
              cap,
              sold,
              ga_held-mint tier q p,
              (gone now db hold v l).ga_fits p a₀ e₀,
            )
      ]

  pub with_ga-IsSound :
      (tier q : ℕ)
      → hold.quantity ≡ some q
      → IsSound now (delete_hold (with_ga new_token db hold order tier q) hold)
  with_ga-IsSound tier q h =
      let base = gone now db hold v l in
      record {
        scoped = base.scoped;
        ga_fits = with_ga-ga_fits tier q h;
        held_once = base.held_once;
        held_not_sold = λ p s e. ground (
          arith,
          any-append (is_live_for p s) db.tickets (ga_tickets new_token q hold order db.next_id),
          any-ga_tickets new_token hold order p s q db.next_id,
          base.held_not_sold p s e,
        );
        sold_once = λ p s. rw count_by-append (
            ground (
              arith,
              count_by-zero (is_live_for p s) (ga_tickets new_token q hold order db.next_id),
              any-ga_tickets new_token hold order p s q db.next_id,
              v.sold_once p s,
            ));
        key_once = base.key_once;
        keys =
            All-weaken db.next_id (db.next_id + q) (omega arith) (select (keep hold) db.holds)
              base.keys;
        tickets_keyed =
            ga_tickets-Keyed new_token hold order q db.next_id db.tickets v.tickets_keyed;
      }
