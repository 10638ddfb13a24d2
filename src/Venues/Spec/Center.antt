-- ===== src/Venues/Spec/Center.antt =====
-- venues/chart_parsing.py: the offset that centers the rows of a section on its axis.
use boxoffice.Common.{
  ℕ, ◌+◌, ◌-◌, ◌*◌, Bool, List, [], ◌∷◌, ltb, leb, ◌==◌, if◌then◌else◌, length, count_by,
}
use boxoffice.Common.Int.{pos, negsuc, ◌-ℤ◌}
use boxoffice.Common.Text.{Text, text_eq}
use boxoffice.Venues.Labels.{generate_row_labels, is_alternating}
use boxoffice.Venues.Spec.{Values, SectionSpec}

-- `seats_per_row` less the seats that are removed from the row.
abbrev pub row_width : ℕ → List (Text × Text) → Text → ℕ
row_width seats_per_row removed label =
    seats_per_row - count_by (λ seat. text_eq seat.0 label) removed

-- The rows with a seat, as their index and width.
abbrev pub occupied_rows : ℕ → List (Text × Text) → ℕ → List Text → List (ℕ × ℕ)
occupied_rows seats_per_row removed index [] = []
occupied_rows seats_per_row removed index (label ∷ labels) =
    let width = row_width seats_per_row removed label in
    let rest = occupied_rows seats_per_row removed (index + 1) labels in
    if ltb 0 width then (index, width) ∷ rest else rest

-- `max(occupied, key=lambda pair: (pair[1], pair[0]))`, of rows in the order of their index.
abbrev pub widest : ℕ × ℕ → List (ℕ × ℕ) → ℕ × ℕ
widest best [] = best
widest best (row ∷ rows) = widest (if leb best.1 row.1 then row else best) rows

abbrev pub last_row : ℕ × ℕ → List (ℕ × ℕ) → ℕ × ℕ
last_row best [] = best
last_row best (row ∷ rows) = last_row row rows

abbrev pub anchor_row : ℕ × ℕ → List (ℕ × ℕ) → ℕ × ℕ
anchor_row first rows =
    let anchor = widest first rows in if anchor.0 == first.0 then last_row first rows else anchor

module _ (V : Values) where
  open V use {floats, ltb_F, leb_F, neg, abs}
  open floats use {F, of_int, plus, minus, times, over}

  abbrev pub slope_of : ℕ × ℕ → ℕ × ℕ → F
  slope_of first anchor =
      over (of_int (pos anchor.1 -ℤ pos first.1)) (of_int (pos anchor.0 -ℤ pos first.0))

  -- Within 1.25 seats of the fitted taper.
  abbrev pub fits_taper : ℕ × ℕ → F → ℕ × ℕ → Bool
  fits_taper first slope row =
      let fitted = plus (of_int (pos first.1)) (times slope (of_int (pos row.0 -ℤ pos first.0))) in
      leb_F (abs (minus (of_int (pos row.1)) fitted)) (over (of_int (pos 5)) (of_int (pos 4)))

  -- `max(-2.0, min(2.0, x))`
  abbrev pub within_two : F → F
  within_two x =
      let two = of_int (pos 2) in
      let low = of_int (negsuc 1) in
      let capped = if ltb_F x two then x else two in if ltb_F low capped then capped else low

  abbrev pub offset_of_rows : F → ℕ × ℕ → List (ℕ × ℕ) → F
  offset_of_rows seat_pitch first rows =
      let slope = slope_of first (anchor_row first rows) in
      let fitting = count_by (fits_taper first slope) (first ∷ rows) in
      if ltb (fitting * 4) (3 * length (first ∷ rows))
      then of_int (pos 0)
      else within_two (over (times (neg seat_pitch) slope) (of_int (pos 2)))

  abbrev pub offset_of_occupied : F → List (ℕ × ℕ) → F
  offset_of_occupied seat_pitch [] = of_int (pos 0)
  offset_of_occupied seat_pitch (first ∷ []) = of_int (pos 0)
  offset_of_occupied seat_pitch (first ∷ row ∷ rows) = offset_of_rows seat_pitch first (row ∷ rows)

  unfoldable pub derived_center_offset : SectionSpec F → F
  derived_center_offset section =
      if is_alternating section.offset_mode
      then of_int (pos 0)
      else offset_of_occupied section.seat_pitch (
          occupied_rows section.seats_per_row section.removed_seats 0
            (generate_row_labels section.rows section.row_label_scheme section.row_label_start))
