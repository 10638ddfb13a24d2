-- ===== src/Venues/Spec/SeatCounts.antt =====
-- venues/chart_parsing.py and venues/generation.py: how many seats a clamped section stands for.
use boxoffice.Common.{ℕ, zero, suc, ◌+◌, ◌*◌, ◌≤◌, arith, sum_by}
use boxoffice.Common.Int.{ℤ, ◌+ℤ◌}
use boxoffice.Venues.{OffsetMode}
use boxoffice.Venues.Labels.{row_count, range_map, compute_row_counts}
use boxoffice.Venues.Spec.{Values, SectionSpec}
use boxoffice.Venues.Spec.Bounds.{Between, Within, IsClamped}

module _ (V : Values) where
  open V use {floats}
  open floats use {F}

  -- The seats that the generator makes of a section.
  abbrev pub seat_count : SectionSpec F → ℕ
  seat_count s =
      sum_by (λ n. n) (compute_row_counts s.rows s.seats_per_row s.offset_mode s.alt_row_seat_delta)

  row_count-le :
      (seats : ℕ) (mode : OffsetMode) (delta : ℤ) (i : ℕ)
      → Between 1 100 seats
      → Within 100 delta
      → row_count seats mode delta i ≤ 200
  unfolding ◌+ℤ◌
  row_count-le seats OffsetMode.repeated delta i s d = ground (arith, s.0, s.1)
  row_count-le seats OffsetMode.alternating delta i s d = ground (arith, s.0, s.1, d.0, d.1)

  sum-range_map :
      (f : ℕ → ℕ) (bound count start : ℕ)
      → ((i : ℕ) → f i ≤ bound)
      → sum_by (λ n. n) (range_map f count start) ≤ count * bound
  sum-range_map f bound zero start h = omega arith
  sum-range_map f bound (suc count) start h =
      omega (arith, h start, sum-range_map f bound count (start + 1) h)

  pub seat_count-le : (s : SectionSpec F) → IsClamped V s → seat_count s ≤ 20000
  unfolding compute_row_counts IsClamped
  seat_count-le s (rows, seats, delta, start) = omega (
    arith,
    rows.1,
    sum-range_map (row_count s.seats_per_row s.offset_mode s.alt_row_seat_delta) 200 s.rows 0
        (λ i. row_count-le s.seats_per_row s.offset_mode s.alt_row_seat_delta i seats delta),
  )
