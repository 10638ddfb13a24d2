-- ===== src/Venues/Generation/Roster.antt =====
-- venues/generation.py: the seats that a section's parameters imply have identities of their own.
use boxoffice.Common.{
  ◌==◌, any, All, ℕ, zero, suc, ◌+◌, ◌≤◌, ◌<◌, ◌≡◌, refl, sym, ◌∙◌, inl, inr, Bool, true, false,
  List, [], ◌∷◌, arith, if◌then◌else◌, Bool-cases, length, count_by,
}
use boxoffice.Common.Text.{Text, text_eq, text_eq_iff}
use boxoffice.Common.Decimal.{decimal}
use boxoffice.Common.Decimal.Injective.{decimal_injective}
use boxoffice.Common.Counting.{All-append, count_by-append}
use boxoffice.Venues.{NumberingScheme, RowLabelScheme, Floats, Layout, ChartSeat}
use boxoffice.Venues.Labels.{
  row_label, generate_row_labels, seat_number, generate_seat_numbers, range_map,
}
use boxoffice.Venues.Labels.Distinct.{row_label_injective, seat_number_injective}
use boxoffice.Venues.Generation.{is_identity, same_seat, build_row, build_rows, build_seats}

module _ {ℓ} {A : Type ℓ} (f : ℕ → A) (p : A → Bool) where
  range_none :
      (hi : ℕ) (count start : ℕ)
      → start + count ≤ hi
      → ((j : ℕ) → start ≤ j → j < hi → p (f j) ≡ false)
      → count_by p (range_map f count start) ≡ 0
  range_none hi zero start le h = refl
  range_none hi (suc count) start le h = rw (h start (omega arith) (omega (arith, le))) (
      omega (
        arith,
        range_none hi count (start + 1) (omega (arith, le)) (λ j a b. h j (omega (arith, a)) b),
      ))

  -- A test that at most one index passes.
  range_once :
      (hi : ℕ)
      → ((i j : ℕ) → i < hi → j < hi → p (f i) ≡ true → p (f j) ≡ true → i ≡ j)
      → (count start : ℕ) → start + count ≤ hi
      → count_by p (range_map f count start) ≤ 1
  range_once hi inj zero start le = omega arith
  range_once hi inj (suc count) start le = elim (Bool-cases (p (f start))) [
    | inr miss ↦ rw miss (omega (arith, range_once hi inj count (start + 1) (omega (arith, le))))
    | inl hit ↦ rw hit (
        omega (
          arith,
          range_none hi count (start + 1) (omega (arith, le)) (λ j a b.
              elim (Bool-cases (p (f j))) [
                | inr other ↦ other
                | inl again ↦ absurd (omega (arith, a, inj start j (omega (arith, le)) b hit again))
              ]),
        ))
  ]

abbrev numbered : Text → ℕ → Bool
numbered number k = text_eq (decimal k) number

numbers_once :
    (scheme : NumberingScheme) (seat_count row_index : ℕ) (number : Text)
    → count_by (numbered number) (generate_seat_numbers seat_count scheme row_index) ≤ 1
unfolding generate_seat_numbers
numbers_once scheme seat_count row_index number =
    range_once (seat_number scheme seat_count row_index) (numbered number) seat_count
      (λ i j a b hi hj. seat_number_injective scheme seat_count row_index i j a b (
        decimal_injective _ _ (
          (text_eq_iff (decimal (seat_number scheme seat_count row_index i)) number).0 hi
          ∙ sym ((text_eq_iff (decimal (seat_number scheme seat_count row_index j)) number).0 hj))))
      seat_count 0 (omega arith)

later_label :
    (scheme : RowLabelScheme) (label : Text) (j start : ℕ)
    → start + 1 ≤ j
    → text_eq (row_label scheme start) label ≡ true
    → text_eq (row_label scheme j) label ≡ false
later_label scheme label j start below here =
    elim (Bool-cases (text_eq (row_label scheme j) label)) [
      | inr other ↦ other
      | inl again ↦ absurd (
          omega (
            arith,
            below,
            row_label_injective scheme j start (
                (text_eq_iff (row_label scheme j) label).0 again
                ∙ sym ((text_eq_iff (row_label scheme start) label).0 here)),
          ))
    ]

module _ (R : Floats) (layout : Layout R.F) (accessible : ℕ → List ℕ)
    (removed_ids accessible_ids : List (Text × Text)) (section : ℕ) (label number : Text) where
  abbrev test : ChartSeat R.F → Bool
  test = same_seat section label number

  row-le :
      (row_index : ℕ) (own : Text) (seat_count seat_index : ℕ) (numbers : List ℕ)
      → count_by test (
          build_row R layout accessible removed_ids accessible_ids row_index own seat_count
            seat_index numbers)
        ≤ (if text_eq own label then count_by (numbered number) numbers else 0)
  row-le row_index own seat_count seat_index [] = ground arith
  row-le row_index own seat_count seat_index (k ∷ numbers) =
      ground (arith, row-le row_index own seat_count (seat_index + 1) numbers)

  abbrev rows_from : ℕ → ℕ → List ℕ → List (ChartSeat R.F)
  rows_from row_index start row_counts =
      build_rows R layout accessible removed_ids accessible_ids row_index
        (generate_row_labels (length row_counts) layout.row_label_scheme start) row_counts

  rows_none :
      (row_counts : List ℕ) (row_index start : ℕ)
      → ((j : ℕ) → start ≤ j → text_eq (row_label layout.row_label_scheme j) label ≡ false)
      → count_by test (rows_from row_index start row_counts) ≡ 0
  unfolding generate_row_labels
  rows_none [] row_index start h = refl
  rows_none (c ∷ row_counts) row_index start h =
      let own = row_label layout.row_label_scheme start in
      let numbers = generate_seat_numbers c layout.numbering_scheme row_index in
      let row =
        build_row R layout accessible removed_ids accessible_ids row_index own c 0 numbers in
      let rest =
        rows_none row_counts (row_index + 1) (start + 1) (λ j le. h j (omega (arith, le))) in
      count_by-append test row (rows_from (row_index + 1) (start + 1) row_counts)
      ∙ omega (arith, rest, rw (h start (omega arith)) at (row-le row_index own c 0 numbers))

  rows_once :
      (row_counts : List ℕ) (row_index start : ℕ)
      → count_by test (rows_from row_index start row_counts) ≤ 1
  unfolding generate_row_labels
  rows_once [] row_index start = omega arith
  rows_once (c ∷ row_counts) row_index start =
      let own = row_label layout.row_label_scheme start in
      let numbers = generate_seat_numbers c layout.numbering_scheme row_index in
      let row =
        build_row R layout accessible removed_ids accessible_ids row_index own c 0 numbers in
      let le = row-le row_index own c 0 numbers in
      let split = count_by-append test row (rows_from (row_index + 1) (start + 1) row_counts) in
      elim (Bool-cases (text_eq own label)) [
        | inr other ↦
            omega (arith, split, rw other at le, rows_once row_counts (row_index + 1) (start + 1))
        | inl here ↦ omega (
          arith,
          split,
          rw here at le,
          numbers_once layout.numbering_scheme c row_index number,
          rows_none row_counts (row_index + 1) (start + 1)
              (λ j below. later_label layout.row_label_scheme label j start below here),
        )
      ]

  row_elsewhere :
      (row_index : ℕ) (own : Text) (seat_count seat_index : ℕ) (numbers : List ℕ)
      → (layout.section.id == section) ≡ false
      → count_by test (
          build_row R layout accessible removed_ids accessible_ids row_index own seat_count
            seat_index numbers)
        ≡ 0
  row_elsewhere row_index own seat_count seat_index [] h = refl
  row_elsewhere row_index own seat_count seat_index (k ∷ numbers) h =
      ground (arith, h, row_elsewhere row_index own seat_count (seat_index + 1) numbers h)

  rows_elsewhere :
      (row_counts : List ℕ) (row_index start : ℕ)
      → (layout.section.id == section) ≡ false
      → count_by test (rows_from row_index start row_counts) ≡ 0
  unfolding generate_row_labels
  rows_elsewhere [] row_index start h = refl
  rows_elsewhere (c ∷ row_counts) row_index start h =
      let own = row_label layout.row_label_scheme start in
      let numbers = generate_seat_numbers c layout.numbering_scheme row_index in
      let row =
        build_row R layout accessible removed_ids accessible_ids row_index own c 0 numbers in
      count_by-append test row (rows_from (row_index + 1) (start + 1) row_counts)
      ∙ omega (
        arith,
        row_elsewhere row_index own c 0 numbers h,
        rows_elsewhere row_counts (row_index + 1) (start + 1) h,
      )

  pub build_seats_elsewhere :
      (row_counts : List ℕ)
      → (layout.section.id == section) ≡ false
      → count_by test (build_seats R layout accessible removed_ids accessible_ids row_counts) ≡ 0
  unfolding build_seats
  build_seats_elsewhere row_counts h = rows_elsewhere row_counts 0 layout.row_label_start h

  pub build_seats_once :
      (row_counts : List ℕ)
      → count_by test (build_seats R layout accessible removed_ids accessible_ids row_counts) ≤ 1
  unfolding build_seats
  build_seats_once row_counts = rows_once row_counts 0 layout.row_label_start

module _ (R : Floats) (layout : Layout R.F) (accessible : ℕ → List ℕ)
    (removed_ids accessible_ids : List (Text × Text)) where
  abbrev Own : ChartSeat R.F → Type 0
  Own s = s.section ≡ layout.section.id

  row-Own :
      (row_index : ℕ) (own : Text) (seat_count seat_index : ℕ) (numbers : List ℕ)
      → All Own (
          build_row R layout accessible removed_ids accessible_ids row_index own seat_count
            seat_index numbers)
  row-Own row_index own seat_count seat_index [] = tt
  row-Own row_index own seat_count seat_index (k ∷ numbers) =
      elim (Bool-cases (any (is_identity own (decimal k)) removed_ids)) [
        | inl gone ↦ rw gone (row-Own row_index own seat_count (seat_index + 1) numbers)
        | inr there ↦ rw there (refl, row-Own row_index own seat_count (seat_index + 1) numbers)
      ]

  rows-Own :
      (row_index : ℕ) (labels : List Text) (row_counts : List ℕ)
      → All Own
          (build_rows R layout accessible removed_ids accessible_ids row_index labels row_counts)
  rows-Own row_index [] row_counts = tt
  rows-Own row_index (own ∷ labels) [] = tt
  rows-Own row_index (own ∷ labels) (c ∷ row_counts) =
      let numbers = generate_seat_numbers c layout.numbering_scheme row_index in
      All-append Own
        (build_row R layout accessible removed_ids accessible_ids row_index own c 0 numbers)
        (build_rows R layout accessible removed_ids accessible_ids (row_index + 1) labels
          row_counts)
        (row-Own row_index own c 0 numbers) (rows-Own (row_index + 1) labels row_counts)

  -- The seats belong to the section.
  pub build_seats-Own :
      (row_counts : List ℕ)
      → All Own (build_seats R layout accessible removed_ids accessible_ids row_counts)
  unfolding build_seats
  build_seats-Own row_counts =
      rows-Own 0
        (generate_row_labels (length row_counts) layout.row_label_scheme layout.row_label_start)
        row_counts
