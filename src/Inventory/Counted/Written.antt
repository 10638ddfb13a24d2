-- ===== src/Inventory/Counted/Written.antt =====
-- The calls of orders/services.py that sell nothing, a scan, and payments/services.py's refund: the sold
-- places still count the live general-admission tickets.
use boxoffice.Common.{
  ℕ, ◌≡◌, refl, subst, inl, inr, Option, List, arith, ◌==◌, is_empty, length, select, Bool-cases,
  Option-cases,
}
use boxoffice.Common.Int.{ℤ, pos, ltb_ℤ}
use boxoffice.Common.Text.{Text}
use boxoffice.Common.Results.{ok, OnOk}
use boxoffice.Db.{Db, Performance, PriceTier, Hold}
use boxoffice.Orders.Availability.{get_allocation, resolve_reserved_prices}
use boxoffice.Orders.Holds.{
  clear_session_hold, release_hold_by_id, set_ga_hold, ga_room, hold_seats_of, set_reserved_hold,
  dedup, requested_seats, is_unavailable, priced,
}
use boxoffice.Orders.Cart.{
  apply_promo_code, remove_promo_code, set_hold_donation, clear_hold_donation,
}
use boxoffice.Orders.Cart.Outcome.{apply_promo_code_lem, set_hold_donation_lem}
use boxoffice.Inventory.Counted.{IsCounted, same-IsCounted}

module _ (db : Db) (organization : ℕ) (c : IsCounted db) where
  pub clear-IsCounted :
      (performance key : ℕ) → IsCounted (clear_session_hold db organization performance key)
  unfolding clear_session_hold
  clear-IsCounted performance key =
      same-IsCounted db (clear_session_hold db organization performance key)
        (record { allocations = refl; tickets = refl; orders = refl; next_id = omega arith }) c

  pub release_hold_by_id-IsCounted :
      (key : ℕ) (hold_id : Option ℕ) → IsCounted (release_hold_by_id db organization key hold_id)
  unfolding release_hold_by_id
  release_hold_by_id-IsCounted key hold_id =
      same-IsCounted db (release_hold_by_id db organization key hold_id)
        (record {
          allocations = ground arith;
          tickets = ground arith;
          orders = ground arith;
          next_id = ground arith;
        })
        c

  pub set_ga_hold-IsCounted :
      (performance : Performance) (key : ℕ) (user : Option ℕ) (tier : PriceTier) (quantity now : ℕ)
      → OnOk IsCounted (set_ga_hold db organization performance key user tier quantity now)
  unfolding set_ga_hold clear_session_hold
  set_ga_hold-IsCounted performance key user tier quantity now = elim (Bool-cases (quantity == 0)) [
    | inl none_wanted ↦ rw none_wanted (
        same-IsCounted db _
          (record { allocations = refl; tickets = refl; orders = refl; next_id = omega arith }) c)
    | inr some_wanted ↦ rw some_wanted (elim (Option-cases (get_allocation db performance.id)) [
      | inl missing ↦ rw missing tt
      | inr (a, e) ↦ rw e (elim (Bool-cases (ltb_ℤ (ga_room db a key now) (pos quantity))) [
        | inl short ↦ rw short tt
        | inr enough ↦ rw enough (
            same-IsCounted db _
              (record { allocations = refl; tickets = refl; orders = refl; next_id = omega arith })
              c)
      ])
    ])
  ]

  hold_seats_of-IsCounted :
      (performance : Performance) (key : ℕ) (user : Option ℕ) (ids : List ℕ) (now : ℕ)
      → OnOk IsCounted (hold_seats_of db organization performance key user ids now)
  unfolding hold_seats_of clear_session_hold
  hold_seats_of-IsCounted performance key user ids now =
      elim (Bool-cases (length (requested_seats db organization performance ids) == length ids)) [
        | inl all_there ↦
            rw all_there
              (elim (Bool-cases (is_empty (select (is_unavailable db performance key now) ids))) [
                | inl none_taken ↦
                    rw none_taken
                      (elim (Option-cases (
                        priced (resolve_reserved_prices db performance)
                          (requested_seats db organization performance ids))) [
                            | inl missing ↦ rw missing tt
                            | inr (hs, e) ↦ rw e (
                                same-IsCounted db _
                                  (record {
                                    allocations = refl;
                                    tickets = refl;
                                    orders = refl;
                                    next_id = omega arith;
                                  })
                                  c)
                          ])
                | inr taken ↦ rw taken tt
              ])
        | inr short ↦ rw short tt
      ]

  pub set_reserved_hold-IsCounted :
      (performance : Performance) (key : ℕ) (user : Option ℕ) (seat_ids : List ℕ) (now : ℕ)
      → OnOk IsCounted (set_reserved_hold db organization performance key user seat_ids now)
  unfolding set_reserved_hold
  set_reserved_hold-IsCounted performance key user seat_ids now =
      elim (Bool-cases (is_empty (dedup seat_ids))) [
        | inl nothing ↦ rw nothing (clear-IsCounted performance.id key)
        | inr some_seats ↦
            rw some_seats (hold_seats_of-IsCounted performance key user (dedup seat_ids) now)
      ]

module _ (db : Db) (organization key : ℕ) (hold_id : Option ℕ) (c : IsCounted db) where
  pub apply_promo_code-IsCounted :
      (now : ℕ) (code : Option Text) {db' : Db} {hold : Hold}
      → apply_promo_code db organization key hold_id code now ≡ ok (db', hold)
      → IsCounted db'
  apply_promo_code-IsCounted now code e =
      let (hold, promo, own, found, usable, out) =
        apply_promo_code_lem db organization key hold_id now code e in
      subst (λ (o : Db × Hold). IsCounted o.0) out
        (same-IsCounted db _
          (record { allocations = refl; tickets = refl; orders = refl; next_id = omega arith }) c)

  pub set_hold_donation-IsCounted :
      (now : ℕ) (amount : Option ℤ) (campaign : Option ℕ) {db' : Db} {hold : Hold}
      → set_hold_donation db organization key hold_id amount campaign now ≡ ok (db', hold)
      → IsCounted db'
  set_hold_donation-IsCounted now amount campaign e =
      let (hold, gift, own, given, low, high, out) =
        set_hold_donation_lem db organization key hold_id now amount campaign e in
      subst (λ (o : Db × Hold). IsCounted o.0) out
        (same-IsCounted db _
          (record { allocations = refl; tickets = refl; orders = refl; next_id = omega arith }) c)

  pub remove_promo_code-IsCounted : IsCounted (remove_promo_code db organization key hold_id)
  unfolding remove_promo_code
  remove_promo_code-IsCounted =
      same-IsCounted db (remove_promo_code db organization key hold_id)
        (record {
          allocations = ground arith;
          tickets = ground arith;
          orders = ground arith;
          next_id = ground arith;
        })
        c

  pub clear_hold_donation-IsCounted : IsCounted (clear_hold_donation db organization key hold_id)
  unfolding clear_hold_donation
  clear_hold_donation-IsCounted =
      same-IsCounted db (clear_hold_donation db organization key hold_id)
        (record {
          allocations = ground arith;
          tickets = ground arith;
          orders = ground arith;
          next_id = ground arith;
        })
        c
