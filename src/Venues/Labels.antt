-- ===== src/Venues/Labels.antt =====
-- venues/generation.py: row labels, seat numbers and the row counts.

pub mod Distinct
use boxoffice.Common.{
  ℕ, zero, suc, ◌+◌, ◌-◌, ◌*◌, ◌/◌, ◌%◌, Bool, not, ◌||◌, List, [], ◌∷◌, ◌==◌, if◌then◌else◌,
  length, select, replicate,
}
use boxoffice.Common.Int.{ℤ, pos, pos_part, ◌+ℤ◌, max_ℤ}
use boxoffice.Common.Text.{Text, codes}
use boxoffice.Venues.{NumberingScheme, RowLabelScheme, OffsetMode}

abbrev pub base_letters_all : Text
base_letters_all = codes "ABCDEFGHIJKLMNOPQRSTUVWXYZ"

abbrev pub base_letters_skip_io : Text
base_letters_skip_io = select (λ c. not (c == b'I' || c == b'O')) base_letters_all

-- `letters[index]`; the index is below the length wherever it is read.
abbrev pub letter_at : Text → ℕ → ℕ
letter_at [] i = 0
letter_at (c ∷ cs) zero = c
letter_at (c ∷ cs) (suc i) = letter_at cs i

abbrev pub letters_of : RowLabelScheme → Text
letters_of RowLabelScheme.all_letters = base_letters_all
letters_of RowLabelScheme.skip_io = base_letters_skip_io

-- `divmod(i, n)`, and the letter repeated.
unfoldable pub row_label : RowLabelScheme → ℕ → Text
row_label scheme i =
    let n = length (letters_of scheme) in
    replicate (i / n + 1) (letter_at (letters_of scheme) (i % n))

unfoldable pub generate_row_labels : ℕ → RowLabelScheme → ℕ → List Text
unfolding row_label
generate_row_labels zero scheme start = []
generate_row_labels (suc count) scheme start =
    row_label scheme start ∷ generate_row_labels count scheme (start + 1)

-- The number of the seat at position `i`, which is below `seat_count`.
unfoldable pub seat_number : NumberingScheme → ℕ → ℕ → ℕ → ℕ
seat_number NumberingScheme.odd_desc_left seat_count row_index i = 2 * (seat_count - i) - 1
seat_number NumberingScheme.even_asc_right seat_count row_index i = 2 * (i + 1)
seat_number NumberingScheme.hundreds seat_count row_index i = (row_index + 1) * 100 + i + 1
seat_number NumberingScheme.hundreds_flat seat_count row_index i = 100 + i + 1
seat_number NumberingScheme.sequential seat_count row_index i = i + 1

-- `[f(i) for i in range(start, start + count)]`
abbrev pub range_map {ℓ} : {A : Type ℓ} → (ℕ → A) → ℕ → ℕ → List A
range_map f zero start = []
range_map f (suc count) start = f start ∷ range_map f count (start + 1)

unfoldable pub generate_seat_numbers : ℕ → NumberingScheme → ℕ → List ℕ
unfolding seat_number
generate_seat_numbers seat_count scheme row_index =
    range_map (seat_number scheme seat_count row_index) seat_count 0

abbrev pub is_alternating : OffsetMode → Bool
is_alternating OffsetMode.alternating = Bool.true
is_alternating OffsetMode.repeated = Bool.false

abbrev pub row_count : ℕ → OffsetMode → ℤ → ℕ → ℕ
row_count seats_per_row offset_mode delta row_index = pos_part (
    max_ℤ (pos 1) (elim offset_mode [
      | OffsetMode.alternating ↦
          if row_index % 2 == 1 then pos seats_per_row +ℤ delta else pos seats_per_row
      | OffsetMode.repeated ↦ pos seats_per_row
    ]))

unfoldable pub compute_row_counts : ℕ → ℕ → OffsetMode → ℤ → List ℕ
compute_row_counts rows seats_per_row offset_mode alt_row_seat_delta =
    range_map (row_count seats_per_row offset_mode alt_row_seat_delta) rows 0
