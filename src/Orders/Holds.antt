-- ===== src/Orders/Holds.antt =====
-- orders/services.py, the hold mutations: set_ga_hold, set_reserved_hold and the releases. Each runs
-- in a transaction, so an error leaves the tables as they were; `now` stands for every reading of
-- the clock in one call.
use boxoffice.Common.{
  ℕ, ◌+◌, Bool, not, ◌&&◌, ◌||◌, Option, none, some, List, [], ◌∷◌, ◌++◌, ◌==◌, if◌then◌else◌,
  is_key, is_some, length, select, order_by, is_empty, any, contains,
}
use boxoffice.Common.Int.{ℤ, pos, ◌-ℤ◌, ltb_ℤ, leb_ℤ}
use boxoffice.Common.Results.{Result, ok, err, ◌>>◌, raise_if}
use boxoffice.Db.{Db, Performance, Seat, PriceTier, GaAllocation, HoldSeat, Hold}
use boxoffice.Events.Pricing.{Dict, ResolvedPrice}
use boxoffice.Orders.Availability.{
  active_ga_held_qty, get_allocation, get_seating_chart, resolve_reserved_prices, is_active,
  holds_seat, is_ticketed, is_blocked,
}

-- The exceptions of a hold call. `allocation_missing` is GAAllocation.DoesNotExist, which no caller
-- catches; the others are HoldError and its subclasses.
pub data HoldError : Type 0 where
  sold_out : HoldError
  only_available : ℤ → HoldError
  allocation_missing not_in_performance : HoldError
  just_taken : List ℕ → HoldError
  no_price selection_expired : HoldError
  invalid_donation donation_not_positive donation_over_cap : HoldError

-- Ten minutes.
abbrev pub default_hold_expiry : ℕ → ℕ
default_hold_expiry now = now + 600

abbrev pub is_session_hold : ℕ → ℕ → ℕ → Hold → Bool
is_session_hold organization performance session_key h =
    h.organization == organization && h.performance == performance && h.session_key == session_key

unfoldable pub clear_session_hold : Db → ℕ → ℕ → ℕ → Db
clear_session_hold db organization performance session_key = record db {
  holds = select (λ h. not (is_session_hold organization performance session_key h)) db.holds;
}

unfoldable pub release_hold : Db → ℕ → ℕ → ℕ → Db
unfolding clear_session_hold
release_hold db organization performance session_key =
    clear_session_hold db organization performance session_key

-- A blank or zero `hold_id` releases nothing.
unfoldable pub release_hold_by_id : Db → ℕ → ℕ → Option ℕ → Db
release_hold_by_id db organization session_key hold_id =
    if is_key hold_id 0 || not (is_some hold_id) then db else record db {
      holds =
          select
            (λ h. not (
              h.organization == organization
              && h.session_key == session_key
              && is_key hold_id h.id))
            db.holds;
    }

-- `Hold.objects.create(...)` with the columns that the two hold calls leave at their defaults.
abbrev pub blank_hold : ℕ → ℕ → ℕ → ℕ → Option ℕ → ℕ → Hold
blank_hold id organization performance session_key user now = record {
  id = id;
  organization = organization;
  performance = performance;
  session_key = session_key;
  user = user;
  expires_at = default_hold_expiry now;
  price_tier = none;
  quantity = none;
  ga_unit_amount = none;
  hold_seats = [];
  promo_code = none;
  promo_code_text = [];
  discount_amount = none;
  donation_amount = none;
  donation_campaign = none;
}

abbrev pub insert_hold : Db → Hold → Db
insert_hold db hold = record db { holds = db.holds ++ hold ∷ []; next_id = db.next_id + 1 }

abbrev pub ga_hold : Db → ℕ → Performance → ℕ → Option ℕ → PriceTier → ℕ → ℕ → Hold
ga_hold db organization performance session_key user tier quantity now =
    let hold = blank_hold db.next_id organization performance.id session_key user now in
    record hold {
      price_tier = some tier.id;
      quantity = some quantity;
      ga_unit_amount = some tier.amount;
    }

-- `available`, which may be negative.
abbrev pub ga_room : Db → GaAllocation → ℕ → ℕ → ℤ
ga_room db a session_key now =
    pos a.capacity -ℤ pos a.sold -ℤ pos (active_ga_held_qty db a.performance (some session_key) now)

abbrev ga_shortage : ℤ → HoldError
ga_shortage available =
    if leb_ℤ available (pos 0) then HoldError.sold_out else HoldError.only_available available

abbrev clear_and_create_ga :
    Db → ℕ → Performance → ℕ → Option ℕ → PriceTier → ℕ → ℕ → Db × Option Hold
clear_and_create_ga db organization performance session_key user tier quantity now =
    let hold = ga_hold db organization performance session_key user tier quantity now in
    (insert_hold (clear_session_hold db organization performance.id session_key) hold, some hold)

unfoldable pub set_ga_hold :
    Db → ℕ → Performance → ℕ → Option ℕ → PriceTier → ℕ → ℕ → Result HoldError (Db × Option Hold)
unfolding clear_session_hold
set_ga_hold db organization performance session_key user tier quantity now =
    if quantity == 0
    then ok (clear_session_hold db organization performance.id session_key, none)
    else elim (get_allocation db performance.id) [
      | none ↦ err HoldError.allocation_missing
      | some a ↦
          if ltb_ℤ (ga_room db a session_key now) (pos quantity)
          then err (ga_shortage (ga_room db a session_key now))
          else ok
              (clear_and_create_ga db organization performance session_key user tier quantity now)
    ]

-- `list(dict.fromkeys(ids))`: the first occurrence of each.
abbrev pub dedup_onto : List ℕ → List ℕ → List ℕ
dedup_onto seen [] = []
dedup_onto seen (x ∷ xs) =
    let rest = dedup_onto (x ∷ seen) xs in
    let again = dedup_onto seen xs in if contains x seen then again else x ∷ rest

abbrev pub dedup : List ℕ → List ℕ
dedup = dedup_onto []

unfoldable pub requested_seats : Db → ℕ → Performance → List ℕ → List Seat
unfolding get_seating_chart
requested_seats db organization performance seat_ids =
    order_by (λ s. s.id)
      (select
        (λ s.
          s.organization == organization
          && is_key (get_seating_chart db performance) s.section.chart
          && contains s.id seat_ids)
        db.seats)

-- The query behind `held_by_others_ids`: an active hold of another session has the seat. It does not
-- ask for which performance.
abbrev pub held_by_others : Db → ℕ → ℕ → ℕ → Bool
held_by_others db session_key now seat =
    any (λ h. is_active now h && not (h.session_key == session_key) && holds_seat seat h) db.holds

abbrev pub is_unavailable : Db → Performance → ℕ → ℕ → ℕ → Bool
is_unavailable db performance session_key now seat =
    is_ticketed db performance.id seat
    || held_by_others db session_key now seat
    || is_blocked db performance.id seat

abbrev pub priced : Dict ResolvedPrice → List Seat → Option (List HoldSeat)
priced prices [] = some []
priced prices (s ∷ seats) = elim (prices s.id) [
  | none ↦ none
  | some p ↦ elim (priced prices seats) [
    | none ↦ none
    | some rest ↦ some (
        record { seat = s.id; price_tier = p.tier; pricing_zone = p.zone; unit_amount = p.amount }
        ∷ rest)
  ]
]

abbrev pub reserved_hold : Db → ℕ → Performance → ℕ → Option ℕ → List HoldSeat → ℕ → Hold
reserved_hold db organization performance session_key user hold_seats now =
    let hold = blank_hold db.next_id organization performance.id session_key user now in
    record hold { hold_seats = hold_seats }

-- The part of set_reserved_hold below the test for an empty selection.
unfoldable pub hold_seats_of :
    Db → ℕ → Performance → ℕ → Option ℕ → List ℕ → ℕ → Result HoldError (Db × Option Hold)
unfolding clear_session_hold requested_seats
hold_seats_of db organization performance session_key user seat_ids now = do
  let seats = requested_seats db organization performance seat_ids
  raise_if (not (length seats == length seat_ids)) HoldError.not_in_performance
  let unavailable_ids = select (is_unavailable db performance session_key now) seat_ids
  raise_if (not (is_empty unavailable_ids)) (HoldError.just_taken unavailable_ids)
  elim (priced (resolve_reserved_prices db performance) seats) [
    | none ↦ err HoldError.no_price
    | some hold_seats ↦
        let hold = reserved_hold db organization performance session_key user hold_seats now in
        ok (
          insert_hold (clear_session_hold db organization performance.id session_key) hold,
          some hold,
        )
  ]

unfoldable pub set_reserved_hold :
    Db → ℕ → Performance → ℕ → Option ℕ → List ℕ → ℕ → Result HoldError (Db × Option Hold)
unfolding clear_session_hold hold_seats_of
set_reserved_hold db organization performance session_key user seat_ids now =
    let wanted = dedup seat_ids in
    if is_empty wanted
    then ok (clear_session_hold db organization performance.id session_key, none)
    else hold_seats_of db organization performance session_key user wanted now
