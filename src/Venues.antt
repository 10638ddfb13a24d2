-- ===== src/Venues.antt =====
-- The venues app: the layout parameters of a section and its seats (venues/models.py). Coordinates are
-- floats: their type and its operations are a parameter, as the language's are.

pub mod Labels
pub mod Geometry
pub mod Generation
pub mod Spec
use boxoffice.Common.{ℕ, Bool, Option}
use boxoffice.Common.Int.{ℤ}
use boxoffice.Common.Text.{Text}
use boxoffice.Db.{Section}

pub data NumberingScheme : Type 0 where
  sequential odd_desc_left even_asc_right hundreds hundreds_flat : NumberingScheme

pub data RowLabelScheme : Type 0 where
  skip_io all_letters : RowLabelScheme

pub data OffsetMode : Type 0 where
  repeated alternating : OffsetMode

pub data PivotMode : Type 0 where
  center origin custom : PivotMode

pub record Floats : Type 1 where
  pub F : Type 0
  pub of_int : ℤ → F
  pub plus : F → F → F
  pub minus : F → F → F
  pub times : F → F → F
  pub over : F → F → F
  pub radians : F → F
  pub cos : F → F
  pub sin : F → F
  -- `bool(x)`: other than 0.
  pub truthy : F → Bool

module _ (F : Type 0) where
  -- The columns of Section beside its key, theater and chart.
  pub record Layout : Type 0 where
    pub section : Section
    pub rows : ℕ
    pub seats_per_row : ℕ
    pub origin_x : F
    pub origin_y : F
    pub rotation : F
    pub seat_pitch : F
    pub row_pitch : F
    pub row_x_offset : F
    pub offset_mode : OffsetMode
    pub alt_row_seat_delta : ℤ
    pub arc_radius : Option F
    pub pivot_mode : PivotMode
    pub pivot_x : F
    pub pivot_y : F
    pub numbering_scheme : NumberingScheme
    pub row_label_scheme : RowLabelScheme
    pub row_label_start : ℕ

  -- A row of Seat.
  pub record ChartSeat : Type 0 where
    pub id : ℕ
    pub organization : ℕ
    pub section : ℕ
    pub row_label : Text
    pub number : Text
    pub x : F
    pub y : F
    pub is_accessible : Bool
