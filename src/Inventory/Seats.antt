-- ===== src/Inventory/Seats.antt =====
-- orders/services.py's set_reserved_hold keeps the inventory's invariant.
use boxoffice.Common.{
  ℕ, ◌≡◌, refl, inl, inr, Bool, true, false, not, ◌&&◌, ◌||◌, Option, some, List, [], ◌∷◌, map,
  arith, ◌==◌, ==_iff, Bool-cases, Option-cases, is_key, length, select, any, All, contains,
  order_by, is_empty, insert_by,
}
use boxoffice.Common.Results.{ok, OnOk, OnOk-ok}
use boxoffice.Db.{Db, Performance, Seat, HoldSeat, Hold}
use boxoffice.Common.Counting.{any-select}
use boxoffice.Events.Pricing.{Dict, ResolvedPrice}
use boxoffice.Orders.Availability.{
  is_active, holds_seat, get_seating_chart, is_ticketed, is_blocked, seat_ids_of,
  resolve_reserved_prices,
}
use boxoffice.Orders.Holds.{
  clear_session_hold, is_session_hold, set_reserved_hold, hold_seats_of, reserved_hold,
  requested_seats, held_by_others, is_unavailable, dedup, priced,
}
use boxoffice.Inventory.{IsSound, IsScoped, is_holding}
use boxoffice.Inventory.Insert.{Fits, insert-IsSound}
use boxoffice.Inventory.Holds.{clear-IsSound}

seat_ids_of-priced :
    (prices : Dict ResolvedPrice) (seats : List Seat) (hs : List HoldSeat)
    → priced prices seats ≡ some hs
    → seat_ids_of hs ≡ map (λ s. s.id) seats
seat_ids_of-priced prices [] hs e = ground arith
seat_ids_of-priced prices (s ∷ seats) hs e = elim (Option-cases (priced prices seats)) [
  | inl missing ↦ ground (arith, missing)
  | inr (rest, found) ↦ ground (arith, found, seat_ids_of-priced prices seats rest found)
]

contains-insert_by :
    (k : ℕ) (s : Seat) (seats : List Seat)
    → contains k (map (λ s. s.id) (insert_by (λ s. s.id) s seats))
      ≡ (k == s.id || contains k (map (λ s. s.id) seats))
contains-insert_by k s [] = refl
contains-insert_by k s (t ∷ seats) = ground (arith, contains-insert_by k s seats)

contains-order_by :
    (k : ℕ) (seats : List Seat)
    → contains k (map (λ s. s.id) (order_by (λ s. s.id) seats)) ≡ contains k (map (λ s. s.id) seats)
contains-order_by k [] = refl
contains-order_by k (s ∷ seats) =
    rw (contains-insert_by k s (order_by (λ s. s.id) seats), contains-order_by k seats)

contains-select :
    (k : ℕ) (ids : List ℕ) (q r : Seat → Bool) (seats : List Seat)
    → contains k (map (λ s. s.id) (select (λ s. q s && r s && contains s.id ids) seats)) ≡ true
    → contains k ids ≡ true
contains-select k ids q r [] e = cc
contains-select k ids q r (s ∷ seats) e =
    ground (arith, contains-select k ids q r seats, ==_iff k s.id)

-- Nothing that was requested is unavailable if the set of those is empty.
fails_all :
    (p : ℕ → Bool) (xs : List ℕ) (k : ℕ)
    → is_empty (select p xs) ≡ true
    → contains k xs ≡ true
    → p k ≡ false
fails_all p [] k e c = cc
fails_all p (x ∷ xs) k e c = ground (arith, fails_all p xs k, ==_iff k x)

or_false : (a b c : Bool) → (a || b || c) ≡ false → (a ≡ false) × (b ≡ false) × (c ≡ false)
or_false a b c h = ground arith

module _ (now : ℕ) (db : Db) (organization : ℕ) (performance : Performance) (key : ℕ)
    (user : Option ℕ) (org : organization ≡ (db.performance performance.id).organization)
    (v : IsSound now db) where
  cleared : Db
  unfolding clear_session_hold
  cleared = clear_session_hold db organization performance.id key

  -- Another hold of the performance is another session's.
  of_others :
      (s : ℕ) (hs : List Hold)
      → All (IsScoped db) hs
      → any (λ h. is_active now h && not (h.session_key == key) && holds_seat s h) hs ≡ false
      → any
          (λ h.
            not (is_session_hold organization performance.id key h)
            && is_holding performance.id s now h)
          hs
        ≡ false
  of_others s [] sc e = refl
  of_others s (h ∷ hs) sc e = ground (arith, sc.0, org, of_others s hs sc.1)

  reserved-Fits :
      (ids : List ℕ) (hs : List HoldSeat)
      → is_empty (select (is_unavailable db performance key now) ids) ≡ true
      → priced
          (resolve_reserved_prices db performance)
          (requested_seats db organization performance ids)
        ≡ some hs
      → Fits now cleared (reserved_hold cleared organization performance key user hs now)
  unfolding cleared requested_seats
  reserved-Fits ids hs none_taken e = record {
    own = org;
    fresh = refl;
    room = λ a found. omega (
      arith,
      (clear-IsSound now db organization performance.id key v).ga_fits performance.id a found,
    );
    free = λ s held.
        let ids_eq =
          seat_ids_of-priced (resolve_reserved_prices db performance)
            (requested_seats db organization performance ids) hs e in
        let wanted : contains s ids ≡ true =
          contains-select s ids (λ x. x.organization == organization)
            (λ x. is_key (get_seating_chart db performance) x.section.chart) db.seats
            (rw (ids_eq, contains-order_by) at held) in
        let (unsold, unheld, unblocked) =
          or_false (is_ticketed db performance.id s) (held_by_others db key now s)
            (is_blocked db performance.id s)
            (fails_all (is_unavailable db performance key now) ids s none_taken wanted) in
        (rw any-select (of_others s db.holds v.scoped unheld), unsold);
  }

  hold_seats_of-OnOk :
      (ids : List ℕ)
      → OnOk (IsSound now) (hold_seats_of db organization performance key user ids now)
  unfolding hold_seats_of cleared
  hold_seats_of-OnOk ids =
      elim (Bool-cases (length (requested_seats db organization performance ids) == length ids)) [
        | inl all_there ↦
            rw all_there
              (elim (Bool-cases (is_empty (select (is_unavailable db performance key now) ids))) [
                | inl none_taken ↦
                    rw none_taken
                      (elim (Option-cases (
                        priced (resolve_reserved_prices db performance)
                          (requested_seats db organization performance ids))) [
                            | inl missing ↦ rw missing tt
                            | inr (hs, e) ↦ rw e (
                                insert-IsSound now cleared _
                                  (clear-IsSound now db organization performance.id key v)
                                  (reserved-Fits ids hs none_taken e))
                          ])
                | inr taken ↦ rw taken tt
              ])
        | inr short ↦ rw short tt
      ]

  set_reserved_hold-OnOk :
      (ids : List ℕ)
      → OnOk (IsSound now) (set_reserved_hold db organization performance key user ids now)
  unfolding set_reserved_hold
  set_reserved_hold-OnOk ids = elim (Bool-cases (is_empty (dedup ids))) [
    | inl nothing ↦ rw nothing (clear-IsSound now db organization performance.id key v)
    | inr some_seats ↦ rw some_seats (hold_seats_of-OnOk (dedup ids))
  ]

-- A successful set_reserved_hold keeps the invariant: no seat that it holds is held by another hold of
-- the performance, or has a live ticket for it.
pub set_reserved_hold-IsSound :
    (now : ℕ) (db : Db) (organization : ℕ) (performance : Performance) (session_key : ℕ)
    (user : Option ℕ) (seat_ids : List ℕ) {db' : Db} {hold : Option Hold}
    → organization ≡ (db.performance performance.id).organization
    → IsSound now db
    → set_reserved_hold db organization performance session_key user seat_ids now ≡ ok (db', hold)
    → IsSound now db'
set_reserved_hold-IsSound now db organization performance key user seat_ids org v e =
    OnOk-ok (IsSound now) _
      (set_reserved_hold-OnOk now db organization performance key user org v seat_ids) e
