-- ===== src/Venues/Generation.antt =====
-- venues/generation.py: the seats of a section, generated anew or moved in place.

pub mod Roster
pub mod Create
pub mod Tickets
pub mod Move
use boxoffice.Common.{
  ℕ, ◌+◌, Bool, true, false, not, ◌&&◌, ◌||◌, Option, none, some, List, [], ◌∷◌, ◌++◌, map, ltb,
  ◌==◌, if◌then◌else◌, length, select, any, update_where, count_by, contains, is_empty,
}
use boxoffice.Common.Text.{Text, text_eq}
use boxoffice.Common.Decimal.{decimal}
use boxoffice.Common.Results.{Result, ok, err, ◌>>=◌, ◌>>◌, raise_if}
use boxoffice.Db.{
  Db, Section, Seat, HoldSeat, Hold, SeatBlock, PricingZone, Ticket, OrderItem, PassRedemption,
  is_void,
}
use boxoffice.Venues.{NumberingScheme, Floats, Layout, ChartSeat}
use boxoffice.Venues.Labels.{generate_row_labels, generate_seat_numbers}
use boxoffice.Venues.Geometry.{seat_xy}

-- SeatGenerationError on its two grounds and SeatRosterChanged. Besides these, what a delete under
-- PROTECT raises, and unique_seat_per_section.
pub data GenerationError : Type 0 where
  live_tickets already_seated roster_changed protected_error integrity_error : GenerationError

-- The tables of the ticket path, with the rows of Seat in full.
pub record Charts (F : Type 0) : Type 0 where
  pub db : Db
  pub seats : List (ChartSeat F)

abbrev pub is_identity : Text → Text → Text × Text → Bool
is_identity row_label number pair = text_eq row_label pair.0 && text_eq number pair.1

abbrev pub same_identity : {F : Type 0} → ChartSeat F → ChartSeat F → Bool
same_identity s t = text_eq s.row_label t.row_label && text_eq s.number t.number

abbrev pub same_seat : {F : Type 0} → ℕ → Text → Text → ChartSeat F → Bool
same_seat section row_label number s =
    s.section == section && text_eq s.row_label row_label && text_eq s.number number

abbrev pub seats_of : {F : Type 0} → List (ChartSeat F) → ℕ → List (ChartSeat F)
seats_of seats section = select (λ s. s.section == section) seats

abbrev pub pks : {F : Type 0} → List (ChartSeat F) → List ℕ
pks [] = []
pks (s ∷ seats) = s.id ∷ pks seats

module _ (R : Floats) where
  open R use {F}

  -- A seat that is not saved has no pk yet.
  abbrev pub new_seat : Layout F → ℕ → Text → ℕ → ℕ → ℕ → Bool → ChartSeat F
  new_seat layout row_index row_label seat_count seat_index number accessible = record {
    id = 0;
    organization = layout.section.organization;
    section = layout.section.id;
    row_label = row_label;
    number = decimal number;
    x = (seat_xy R layout row_index seat_index seat_count).0;
    y = (seat_xy R layout row_index seat_index seat_count).1;
    is_accessible = accessible;
  }

  module _ (layout : Layout F) (accessible : ℕ → List ℕ)
      (removed_ids accessible_ids : List (Text × Text)) where
    -- The inner loop, from position `seat_index` on.
    abbrev pub build_row : ℕ → Text → ℕ → ℕ → List ℕ → List (ChartSeat F)
    build_row row_index row_label seat_count seat_index [] = []
    build_row row_index row_label seat_count seat_index (number ∷ numbers) =
        let rest = build_row row_index row_label seat_count (seat_index + 1) numbers in
        if any (is_identity row_label (decimal number)) removed_ids
        then rest
        else new_seat layout row_index row_label seat_count seat_index number (
            contains (seat_index + 1) (accessible row_index)
            || any (is_identity row_label (decimal number)) accessible_ids)
          ∷ rest

    abbrev pub build_rows : ℕ → List Text → List ℕ → List (ChartSeat F)
    build_rows row_index [] row_counts = []
    build_rows row_index (row_label ∷ labels) [] = []
    build_rows row_index (row_label ∷ labels) (seat_count ∷ row_counts) =
        build_row row_index row_label seat_count 0
          (generate_seat_numbers seat_count layout.numbering_scheme row_index)
        ++ build_rows (row_index + 1) labels row_counts

    unfoldable pub build_seats : List ℕ → List (ChartSeat F)
    unfolding generate_row_labels generate_seat_numbers
    build_seats row_counts =
        build_rows 0
          (generate_row_labels (length row_counts) layout.row_label_scheme layout.row_label_start)
          row_counts

-- A foreign key to a deleted seat under SET_NULL.
abbrev pub forget : List ℕ → Option ℕ → Option ℕ
forget gone none = none
forget gone (some k) = if contains k gone then none else some k

abbrev pub stands_on : List ℕ → Option ℕ → Bool
stands_on gone none = false
stands_on gone (some k) = contains k gone

abbrev pub is_left : List ℕ → ℕ → Bool
is_left gone k = not (contains k gone)

abbrev forget_ticket : List ℕ → Ticket → Ticket
forget_ticket gone t = record t { seat = forget gone t.seat }

abbrev forget_redemption : List ℕ → PassRedemption → PassRedemption
forget_redemption gone r = record r { seat = forget gone r.seat }

abbrev drop_hold_seats : List ℕ → Hold → Hold
drop_hold_seats gone h = record h { hold_seats = select (λ s. is_left gone s.seat) h.hold_seats }

abbrev drop_zone_seats : List ℕ → PricingZone → PricingZone
drop_zone_seats gone z = record z { seats = select (is_left gone) z.seats }

-- What the database deletes and clears with the seats.
unfoldable pub delete_seats : {F : Type 0} → Charts F → List ℕ → Charts F
delete_seats t gone = record t {
  seats = select (λ s. is_left gone s.id) t.seats;
  db = record t.db {
    seats = select (λ s. is_left gone s.id) t.db.seats;
    tickets = map (forget_ticket gone) t.db.tickets;
    holds = map (drop_hold_seats gone) t.db.holds;
    blocks = select (λ b. is_left gone b.seat) t.db.blocks;
    zones = map (drop_zone_seats gone) t.db.zones;
    pass_redemptions = map (forget_redemption gone) t.db.pass_redemptions;
  };
}

abbrev pub is_live_on : List ℕ → Ticket → Bool
is_live_on gone t = not (is_void t.status) && stands_on gone t.seat

-- The guards before the delete.
abbrev pub clear_section :
    {F : Type 0} → Charts F → List ℕ → Bool → Result GenerationError (Charts F)
clear_section t existing replace = if is_empty existing then ok t else (do
  raise_if (any (is_live_on existing) t.db.tickets) GenerationError.live_tickets
  raise_if (not replace) GenerationError.already_seated
  raise_if (any (λ i. stands_on existing i.seat) t.db.items) GenerationError.protected_error
  ok (delete_seats t existing))

abbrev pub number_seats : {F : Type 0} → ℕ → List (ChartSeat F) → List (ChartSeat F)
number_seats next [] = []
number_seats next (s ∷ seats) = record s { id = next } ∷ number_seats (next + 1) seats

abbrev pub join_section : {F : Type 0} → Section → ChartSeat F → Seat
join_section section s = record { id = s.id; organization = s.organization; section = section }

-- Two rows of one section, row label and number.
abbrev pub has_duplicate : {F : Type 0} → List (ChartSeat F) → Bool
has_duplicate seats =
    any (λ s. ltb 1 (count_by (same_seat s.section s.row_label s.number) seats)) seats

unfoldable pub bulk_create :
    {F : Type 0} → Charts F → Section → List (ChartSeat F) → Result GenerationError (Charts F)
bulk_create t section new = do
  let saved = number_seats t.db.next_id new
  raise_if (has_duplicate (t.seats ++ saved)) GenerationError.integrity_error
  ok (record t {
    seats = t.seats ++ saved;
    db = record t.db {
      seats = t.db.seats ++ map (join_section section) saved;
      next_id = t.db.next_id + length new;
    };
  })

module _ (R : Floats) where
  open R use {F}

  -- The list that is returned is a query of the tables afterwards.
  unfoldable pub generate_seats :
      Charts F
      → Layout F
      → List ℕ
      → (ℕ → List ℕ)
      → List (Text × Text)
      → List (Text × Text)
      → Bool
      → Result GenerationError (Charts F)
  unfolding bulk_create delete_seats build_seats
  generate_seats t layout row_counts accessible removed_ids accessible_ids replace = do
    t' ← clear_section t (pks (seats_of t.seats layout.section.id)) replace
    bulk_create t' layout.section
        (build_seats R layout accessible removed_ids accessible_ids row_counts)

  -- The set of identities is the same on both sides.
  abbrev pub same_roster : List (ChartSeat F) → List (ChartSeat F) → Bool
  same_roster prospective existing =
      not (any (λ p. not (any (same_identity p) existing)) prospective)
      && not (any (λ s. not (any (same_identity s) prospective)) existing)

  abbrev pub move_to : ChartSeat F → ChartSeat F → ChartSeat F
  move_to target s = record s { x = target.x; y = target.y; is_accessible = target.is_accessible }

  abbrev pub move_all : ℕ → List (ChartSeat F) → List (ChartSeat F) → List (ChartSeat F)
  move_all section [] seats = seats
  move_all section (p ∷ prospective) seats =
      move_all section prospective
        (update_where (same_seat section p.row_label p.number) (move_to p) seats)

  unfoldable pub reposition_seats :
      Charts F
      → Layout F
      → List ℕ
      → List (Text × Text)
      → List (Text × Text)
      → Result GenerationError (Charts F)
  unfolding build_seats
  reposition_seats t layout row_counts removed_ids accessible_ids = do
    let prospective = build_seats R layout (λ _. []) removed_ids accessible_ids row_counts
    raise_if (not (same_roster prospective (seats_of t.seats layout.section.id)))
        GenerationError.roster_changed
    ok (record t { seats = move_all layout.section.id prospective t.seats })
