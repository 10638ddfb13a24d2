-- ===== src/Tests/Seating.antt =====
-- Runs of the model, and the theorems at those inputs: the seats of a section. Integers stand for the
-- floats.
use boxoffice.Common.{
  ℕ, ◌+◌, ◌*◌, ◌≡◌, refl, true, false, not, Option, none, some, List, [], ◌∷◌, map, arith, ◌==◌,
  any, count_by, All,
}
use boxoffice.Common.Int.{ℤ, pos, negsuc, pos_part, neg_part, sub_ℕ, ◌+ℤ◌, ◌-ℤ◌}
use boxoffice.Common.Text.{Text, codes}
use boxoffice.Common.Pairs.{Pairs}
use boxoffice.Common.Decimal.{decimal}
use boxoffice.Common.Results.{ok, err}
use boxoffice.Db.{Ticket, TicketStatus}
use boxoffice.Venues.{
  NumberingScheme, RowLabelScheme, OffsetMode, PivotMode, Floats, Layout, ChartSeat,
}
use boxoffice.Venues.Labels.{generate_row_labels, generate_seat_numbers, compute_row_counts}
use boxoffice.Venues.Geometry.{seat_xy}
use boxoffice.Venues.Generation.{
  GenerationError, Charts, same_identity, same_seat, seats_of, build_seats, generate_seats,
  reposition_seats,
}
use boxoffice.Venues.Generation.Create.{IsUnique, generate_seats_succeeds}
use boxoffice.Venues.Generation.Tickets.{live_on, generate_seats_keeps_tickets}
use boxoffice.Venues.Generation.Move.{Stays, DrawnAs, reposition_seats_lem}
use boxoffice.Tests.{shop}

abbrev times : ℤ → ℤ → ℤ
times a b =
    sub_ℕ (pos_part a * pos_part b + neg_part a * neg_part b)
      (pos_part a * neg_part b + neg_part a * pos_part b)

abbrev pub integers : Floats
integers = record {
  F = ℤ;
  of_int = λ n. n;
  plus = λ a b. a +ℤ b;
  minus = λ a b. a -ℤ b;
  times = times;
  over = λ a b. a;
  radians = λ a. a;
  cos = λ a. pos 1;
  sin = λ a. pos 0;
  truthy = λ a. not (pos_part a + neg_part a == 0);
}

-- Rows N and P of two seats.
abbrev parterre : Layout ℤ
parterre = record {
  section = record { id = 12; organization = 7; chart = 6 };
  rows = 2;
  seats_per_row = 2;
  origin_x = pos 10;
  origin_y = pos 20;
  rotation = pos 0;
  seat_pitch = pos 1;
  row_pitch = pos 2;
  row_x_offset = pos 0;
  offset_mode = OffsetMode.repeated;
  alt_row_seat_delta = pos 0;
  arc_radius = none;
  pivot_mode = PivotMode.origin;
  pivot_x = pos 0;
  pivot_y = pos 0;
  numbering_scheme = NumberingScheme.odd_desc_left;
  row_label_scheme = RowLabelScheme.skip_io;
  row_label_start = 12;
}

labels : generate_row_labels 3 RowLabelScheme.skip_io 23 ≡ codes "Z" ∷ codes "AA" ∷ codes "BB" ∷ []
unfolding generate_row_labels
labels = refl

numbers : generate_seat_numbers 4 NumberingScheme.odd_desc_left 0 ≡ 7 ∷ 5 ∷ 3 ∷ 1 ∷ []
unfolding generate_seat_numbers
numbers = refl

counts : compute_row_counts 3 2 OffsetMode.alternating (negsuc 4) ≡ 2 ∷ 1 ∷ 2 ∷ []
unfolding compute_row_counts ◌+ℤ◌
counts = refl

abbrev seat : ℕ → Text → ℕ → ℤ → ℤ → ChartSeat ℤ
seat id row number x y = record {
  id = id;
  organization = 7;
  section = 12;
  row_label = row;
  number = decimal number;
  x = x;
  y = y;
  is_accessible = false;
}

-- P1 is an aisle.
abbrev aisle : List (Text × Text)
aisle = (codes "P", codes "1") ∷ []

abbrev three_seats : ℤ → List (ChartSeat ℤ)
three_seats x =
    seat 50 (codes "N") 3 x (pos 20)
    ∷ seat 51 (codes "N") 1 (x +ℤ pos 1) (pos 20)
    ∷ seat 52 (codes "P") 3 x (pos 22)
    ∷ []

abbrev empty_house : Charts ℤ
empty_house = record { db = record shop { seats = [] }; seats = [] }

abbrev house_of : ℤ → Charts ℤ
house_of x = record {
  db = record shop {
    seats =
        map (λ k. record { id = k; organization = 7; section = parterre.section })
          (50 ∷ 51 ∷ 52 ∷ []);
    next_id = 53;
  };
  seats = three_seats x;
}

generate_run :
    generate_seats integers empty_house parterre (2 ∷ 2 ∷ []) (λ _. []) aisle [] false
    ≡ ok (house_of (pos 10))
unfolding generate_seats seat_xy ◌+ℤ◌ ◌-ℤ◌ decimal
generate_run = refl

abbrev ticket_for : ℕ → Option ℕ → TicketStatus → Ticket
ticket_for id seat status = record {
  id = id;
  organization = 7;
  order = 40;
  performance = 2;
  seat = seat;
  holder_name = [];
  token = [];
  status = status;
  used_at = none;
  scanned_by = none;
}

-- A void ticket for a seat of the section, and a live one elsewhere.
abbrev sold_house : Charts ℤ
sold_house = record {
  db = record (house_of (pos 10)).db {
    tickets =
        ticket_for 30 (some 50) TicketStatus.void ∷ ticket_for 31 (some 99) TicketStatus.valid ∷ [];
  };
  seats = three_seats (pos 10);
}

abbrev single_seat : Charts ℤ
single_seat = record {
  db = record shop {
    seats = record { id = 53; organization = 7; section = parterre.section } ∷ [];
    tickets =
        ticket_for 30 none TicketStatus.void ∷ ticket_for 31 (some 99) TicketStatus.valid ∷ [];
    next_id = 54;
  };
  seats = seat 53 (codes "N") 1 (pos 10) (pos 20) ∷ [];
}

replace_run :
    generate_seats integers sold_house parterre (1 ∷ []) (λ _. []) [] [] true ≡ ok single_seat
unfolding generate_seats seat_xy ◌+ℤ◌ ◌-ℤ◌ decimal
replace_run = refl

generate_seats_keeps_tickets_example :
    live_on 99 single_seat.db.tickets ≡ live_on 99 sold_house.db.tickets
generate_seats_keeps_tickets_example =
    generate_seats_keeps_tickets integers sold_house parterre (1 ∷ []) (λ _. []) [] [] true
      single_seat 99 replace_run

-- Seats are replaced only if that is asked for.
generate_again :
    generate_seats integers (house_of (pos 10)) parterre (2 ∷ []) (λ _. []) [] [] false
    ≡ err GenerationError.already_seated
unfolding generate_seats
generate_again = refl

empty_house-IsUnique : IsUnique (empty_house.seats)
empty_house-IsUnique section label number = omega arith

generate_seats_succeeds_example :
    (t' : Charts ℤ) × (generate_seats integers empty_house parterre
        (2 ∷ 2 ∷ [])
        (λ _. [])
        aisle
        []
        false
      ≡ ok t')
    × IsUnique t'.seats
    × ((label number : Text)
        → count_by (same_seat 12 label number) t'.seats
          ≡ count_by
              (same_seat 12 label number)
              (build_seats integers parterre (λ _. []) aisle [] (2 ∷ 2 ∷ [])))
generate_seats_succeeds_example =
    generate_seats_succeeds integers empty_house parterre (2 ∷ 2 ∷ []) (λ _. []) aisle [] false
      empty_house-IsUnique refl refl refl

-- The section is dragged five to the right.
abbrev dragged : Layout ℤ
dragged = record parterre { origin_x = pos 15 }

reposition_run :
    reposition_seats integers (house_of (pos 10)) dragged (2 ∷ 2 ∷ []) aisle []
    ≡ ok (house_of (pos 15))
unfolding reposition_seats seat_xy ◌+ℤ◌ ◌-ℤ◌ decimal
reposition_run = refl

reposition_seats_example :
    ((house_of (pos 15)).db ≡ (house_of (pos 10)).db)
    × Pairs Stays (three_seats (pos 10)) (three_seats (pos 15))
    × All
        (λ p. any (same_seat 12 p.row_label p.number) (three_seats (pos 10)) ≡ true)
        (build_seats integers dragged (λ _. []) aisle [] (2 ∷ 2 ∷ []))
    × All
        (λ p. All (DrawnAs 12 p) (three_seats (pos 15)))
        (build_seats integers dragged (λ _. []) aisle [] (2 ∷ 2 ∷ []))
    × All
        (λ s.
          any (same_identity s) (build_seats integers dragged (λ _. []) aisle [] (2 ∷ 2 ∷ []))
          ≡ true)
        (seats_of (three_seats (pos 10)) 12)
reposition_seats_example =
    reposition_seats_lem integers (house_of (pos 10)) dragged (2 ∷ 2 ∷ []) aisle []
      (house_of (pos 15)) reposition_run
