-- ===== src/Venues/Geometry.antt =====
-- venues/generation.py: where a seat is drawn.
use boxoffice.Common.{ℕ, ◌-◌, ◌%◌, Option, none, some, ◌==◌, if◌then◌else◌}
use boxoffice.Common.Int.{pos, ◌-ℤ◌}
use boxoffice.Venues.{Floats, OffsetMode, PivotMode, Layout}

module _ (R : Floats) where
  open R use {F, of_int, plus, minus, times, over, radians, cos, sin, truthy}

  abbrev whole : ℕ → F
  whole n = of_int (pos n)

  unfoldable pub rotate : F → F → F → F × F
  rotate x y degrees =
      if truthy degrees
      then (
        minus (times x (cos (radians degrees))) (times y (sin (radians degrees))),
        plus (times x (sin (radians degrees))) (times y (cos (radians degrees))),
      )
      else (x, y)

  unfoldable pub row_x_offset : Layout F → ℕ → F
  row_x_offset section row_index = elim section.offset_mode [
    | OffsetMode.alternating ↦ if row_index % 2 == 1 then section.row_x_offset else whole 0
    | OffsetMode.repeated ↦ times (whole row_index) section.row_x_offset
  ]

  unfoldable pub grid_or_raked_local : Layout F → ℕ → ℕ → F × F
  unfolding row_x_offset
  grid_or_raked_local section row_index seat_index = (
    plus (times (whole seat_index) section.seat_pitch) (row_x_offset section row_index),
    times (whole row_index) section.row_pitch,
  )

  -- `(row_seat_count - 1) / 2`
  abbrev pub center_offset : ℕ → F
  center_offset row_seat_count = over (of_int (pos row_seat_count -ℤ pos 1)) (whole 2)

  unfoldable pub fanned_local : Layout F → F → ℕ → ℕ → ℕ → F × F
  unfolding row_x_offset
  fanned_local section arc_radius row_index seat_index row_seat_count =
      let radius = plus arc_radius (times (whole row_index) section.row_pitch) in
      let angle_step = if truthy radius then over section.seat_pitch radius else whole 0 in
      let theta = times (minus (whole seat_index) (center_offset row_seat_count)) angle_step in
      (
        plus (times radius (sin theta)) (row_x_offset section row_index),
        minus (times radius (cos theta)) arc_radius,
      )

  -- `max(0, n - 1)` is the difference that stops at 0.
  unfoldable pub rotation_pivot_local : Layout F → F × F
  rotation_pivot_local section = elim section.pivot_mode [
    | PivotMode.origin ↦ (whole 0, whole 0)
    | PivotMode.custom ↦ (section.pivot_x, section.pivot_y)
    | PivotMode.center ↦ (
      over (times (whole (section.seats_per_row - 1)) section.seat_pitch) (whole 2),
      over (times (whole (section.rows - 1)) section.row_pitch) (whole 2),
    )
  ]

  unfoldable pub pivot_xy : Layout F → F × F
  unfolding rotation_pivot_local
  pivot_xy section =
      let (pivot_x, pivot_y) = rotation_pivot_local section in
      (plus section.origin_x pivot_x, plus section.origin_y pivot_y)

  -- An arc radius of 0 is none.
  abbrev pub local_xy : Layout F → Option F → ℕ → ℕ → ℕ → F × F
  local_xy section none row_index seat_index row_seat_count =
      grid_or_raked_local section row_index seat_index
  local_xy section (some r) row_index seat_index row_seat_count =
      if truthy r
      then fanned_local section r row_index seat_index row_seat_count
      else grid_or_raked_local section row_index seat_index

  unfoldable pub seat_xy : Layout F → ℕ → ℕ → ℕ → F × F
  unfolding rotate grid_or_raked_local fanned_local rotation_pivot_local
  seat_xy section row_index seat_index row_seat_count =
      let (local_x, local_y) =
        local_xy section section.arc_radius row_index seat_index row_seat_count in
      let (pivot_x, pivot_y) = rotation_pivot_local section in
      let (rel_x, rel_y) =
        rotate (minus local_x pivot_x) (minus local_y pivot_y) section.rotation in
      (plus (plus section.origin_x pivot_x) rel_x, plus (plus section.origin_y pivot_y) rel_y)
