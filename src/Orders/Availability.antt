-- ===== src/Orders/Availability.antt =====
-- orders/services.py, the read-only half: availability of general-admission places and of reserved
-- seats, and the prices of a seat map. `now` is what `timezone.now()` returns in the call.
use boxoffice.Common.{
  ℕ, Bool, true, false, not, ◌&&◌, ◌||◌, Option, none, some, List, [], ◌∷◌, map, ltb, ◌==◌,
  if◌then◌else◌, is_key, is_some, or_else, length, select, find_first, any, sum_by, contains,
}
use boxoffice.Common.Int.{ℤ, pos, ◌-ℤ◌, max_ℤ}
use boxoffice.Db.{
  Db, Performance, Section, Seat, PriceTier, PricingZone, GaAllocation, HoldSeat, Hold, Ticket,
  is_void,
}
use boxoffice.Events.Pricing.{
  Dict, empty_dict, put, ResolvedPrice, zone_price, tier_price, resolve_seat_tier, zones_by_seat_id,
}

abbrev pub is_active : ℕ → Hold → Bool
is_active now hold = ltb now hold.expires_at

-- The last row that passes a test: the newest of `order_by("-created_at")`.
abbrev pub find_last {ℓ} : {A : Type ℓ} → (A → Bool) → List A → Option A
find_last p [] = none
find_last p (x ∷ xs) = elim (find_last p xs) [
  | some y ↦ some y
  | none ↦ if p x then some x else none
]

unfoldable pub get_active_hold : Db → ℕ → ℕ → ℕ → ℕ → Option Hold
get_active_hold db organization performance session_key now =
    find_last
      (λ h.
        h.organization == organization
        && h.performance == performance
        && h.session_key == session_key
        && is_active now h)
      db.holds

abbrev pub held_quantity : Hold → ℕ
held_quantity hold = or_else hold.quantity 0

-- `exclude_session_key`, when given, leaves that session's holds out.
abbrev pub is_excluded : Option ℕ → Hold → Bool
is_excluded none hold = false
is_excluded (some key) hold = hold.session_key == key

unfoldable pub active_ga_held_qty : Db → ℕ → Option ℕ → ℕ → ℕ
active_ga_held_qty db performance exclude now = sum_by held_quantity (
    select
      (λ h.
        h.performance == performance
        && is_some h.quantity
        && is_active now h
        && not (is_excluded exclude h))
      db.holds)

abbrev pub get_allocation : Db → ℕ → Option GaAllocation
get_allocation db performance = find_first (λ a. a.performance == performance) db.allocations

unfoldable pub ga_available : Db → ℕ → Option ℕ → ℕ → ℤ
ga_available db performance exclude now = elim (get_allocation db performance) [
  | none ↦ pos 0
  | some a ↦
      max_ℤ (pos a.capacity -ℤ pos a.sold -ℤ pos (active_ga_held_qty db performance exclude now))
        (pos 0)
]

abbrev first_chart : List ℕ → Option ℕ
first_chart [] = none
first_chart (c ∷ charts) = some c

unfoldable pub get_seating_chart : Db → Performance → Option ℕ
get_seating_chart db performance = elim performance.seating_chart [
  | some c ↦ some c
  | none ↦ first_chart (db.venue_charts performance.venue)
]

unfoldable pub performance_seats : Db → Performance → List Seat
unfolding get_seating_chart
performance_seats db performance = elim (get_seating_chart db performance) [
  | none ↦ []
  | some c ↦
      select (λ s. s.organization == performance.organization && s.section.chart == c) db.seats
]

abbrev pub put_if_some {ℓ} : {A : Type ℓ} → ℕ → Option A → Dict A → Dict A
put_if_some k none m = m
put_if_some k (some v) m = put k v m

abbrev pub price_sections : Db → Performance → List Section → Dict PriceTier → Dict PriceTier
price_sections db performance [] m = m
price_sections db performance (s ∷ sections) m =
    price_sections db performance sections (put_if_some s.id (resolve_seat_tier db performance s) m)

unfoldable pub price_tiers_by_section : Db → Performance → Dict PriceTier
unfolding get_seating_chart
price_tiers_by_section db performance = elim (get_seating_chart db performance) [
  | none ↦ empty_dict
  | some c ↦
      price_sections db performance
        (select (λ s. s.organization == performance.organization && s.chart == c) db.sections)
        empty_dict
]

-- One turn of the loop of `resolve_reserved_prices`.
abbrev pub seat_price : Dict PricingZone → Dict PriceTier → Seat → Option ResolvedPrice
seat_price zones tiers seat = elim (zones seat.id) [
  | some z ↦ some (zone_price z)
  | none ↦ elim (tiers seat.section.id) [ some t ↦ some (tier_price t) | none ↦ none ]
]

abbrev pub price_seats :
    Dict PricingZone → Dict PriceTier → List Seat → Dict ResolvedPrice → Dict ResolvedPrice
price_seats zones tiers [] m = m
price_seats zones tiers (s ∷ seats) m =
    price_seats zones tiers seats (put_if_some s.id (seat_price zones tiers s) m)

unfoldable pub resolve_reserved_prices : Db → Performance → Dict ResolvedPrice
unfolding performance_seats price_tiers_by_section
resolve_reserved_prices db performance =
    price_seats (zones_by_seat_id db performance) (price_tiers_by_section db performance)
      (performance_seats db performance) empty_dict

-- The seats of a hold, and whether it holds one.
abbrev pub seat_ids_of : List HoldSeat → List ℕ
seat_ids_of [] = []
seat_ids_of (hs ∷ rest) = hs.seat ∷ seat_ids_of rest

abbrev pub holds_seat : ℕ → Hold → Bool
holds_seat seat hold = contains seat (seat_ids_of hold.hold_seats)

-- A live ticket is one that is not void.
abbrev pub is_live_for : ℕ → ℕ → Ticket → Bool
is_live_for performance seat t =
    t.performance == performance && is_key t.seat seat && not (is_void t.status)

abbrev pub is_ticketed : Db → ℕ → ℕ → Bool
is_ticketed db performance seat = any (is_live_for performance seat) db.tickets

abbrev pub is_blocked : Db → ℕ → ℕ → Bool
is_blocked db performance seat = any (λ b. b.performance == performance && b.seat == seat) db.blocks

-- An active hold on this performance has the seat; `mine` asks whether its session is the given one.
abbrev pub is_held : Db → ℕ → ℕ → (Hold → Bool) → ℕ → Bool
is_held db performance seat mine now =
    any (λ h. h.performance == performance && is_active now h && mine h && holds_seat seat h)
      db.holds

abbrev pub is_session : Option ℕ → Hold → Bool
is_session none hold = false
is_session (some key) hold = hold.session_key == key

pub data SeatState : Type 0 where
  blocked unavailable held_by_you available : SeatState

unfoldable pub seat_state : Db → Performance → Option ℕ → ℕ → ℕ → SeatState
seat_state db performance session_key now seat =
    if is_blocked db performance.id seat
    then SeatState.blocked
    else if is_ticketed db performance.id seat
        || is_held db performance.id seat (λ h. not (is_session session_key h)) now
    then SeatState.unavailable
    else if is_held db performance.id seat (is_session session_key) now
    then SeatState.held_by_you
    else SeatState.available

unfoldable pub reserved_seat_states : Db → Performance → Option ℕ → ℕ → List (ℕ × SeatState)
unfolding performance_seats seat_state
reserved_seat_states db performance session_key now =
    map (λ s. (s.id, seat_state db performance session_key now s.id))
      (performance_seats db performance)

abbrev pub is_selectable : SeatState → Bool
is_selectable SeatState.blocked = false
is_selectable SeatState.unavailable = false
is_selectable other = true

unfoldable pub reserved_available_count : Db → Performance → ℕ → ℕ
unfolding reserved_seat_states
reserved_available_count db performance now =
    length (select (λ e. is_selectable e.1) (reserved_seat_states db performance none now))
