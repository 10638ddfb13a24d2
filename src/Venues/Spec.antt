-- ===== src/Venues/Spec.antt =====
-- venues/chart_parsing.py: the reply of the parsing service as a JSON value, and the parts of
-- validate_chart_spec that make a number, a text, a pair or a scheme of a value.
pub mod Center
pub mod Validate
pub mod Suffixes
pub mod Names
pub mod Bounds
pub mod SeatCounts
pub mod Validated
use boxoffice.Common.{
  ℕ, ◌+◌, ◌≡◌, Bool, true, false, not, ◌&&◌, ◌||◌, Option, none, some, List, [], ◌∷◌, ◌++◌, ltb,
  ◌==◌, if◌then◌else◌, or_else,
}
use boxoffice.Common.Int.{ℤ, pos, negsuc, pos_part, min_ℤ, max_ℤ, ◌-ℤ◌}
use boxoffice.Common.Text.{Text, codes, text_eq, is_blank, strip}
use boxoffice.Common.Results.{Result, ok, err, ◌>>=◌}
use boxoffice.Venues.{NumberingScheme, RowLabelScheme, OffsetMode, Floats}

mutual
  pub data Json (F : Type 0) : Type 0 where
    null : Json F
    boolean : Bool → Json F
    int : ℤ → Json F
    float : F → Json F
    string : Text → Json F
    array : Elements F → Json F
    object : Fields F → Json F

  pub data Elements (F : Type 0) : Type 0 where
    no_element : Elements F
    element : Json F → Elements F → Elements F

  pub data Fields (F : Type 0) : Type 0 where
    no_field : Fields F
    field : Text → Json F → Fields F → Fields F

-- What `int(value)` or `float(value)` comes to: a number, a TypeError or ValueError, or an
-- OverflowError (`int(inf)`, `float(10 ** 400)`).
pub data Converted (A : Type 0) : Type 0 where
  number : A → Converted A
  not_a_number overflow : Converted A

-- The language's conversions of a JSON value, and what else of its floats is used.
pub record Values : Type 1 where
  pub floats : Floats
  pub to_int : Json floats.F → Converted ℤ
  pub to_float : Json floats.F → Converted floats.F
  pub to_text : Json floats.F → Text
  pub ltb_F : floats.F → floats.F → Bool
  pub leb_F : floats.F → floats.F → Bool
  pub neg : floats.F → floats.F
  pub abs : floats.F → floats.F

-- ChartParsingError on its two grounds, and what else a value may raise: OverflowError, and the
-- TypeError of a list or an object that is looked up in a set.
pub data SpecError : Type 0 where
  not_a_spec no_sections overflow_error unhashable : SpecError

-- A section of a validated spec.
pub record SectionSpec (F : Type 0) : Type 0 where
  pub name : Text
  pub tier : Text
  pub rows : ℕ
  pub seats_per_row : ℕ
  pub origin_x : F
  pub origin_y : F
  pub rotation : F
  pub seat_pitch : F
  pub row_pitch : F
  pub arc_radius : Option F
  pub offset_mode : OffsetMode
  pub row_x_offset : F
  pub alt_row_seat_delta : ℤ
  pub numbering_scheme : NumberingScheme
  pub row_label_scheme : RowLabelScheme
  pub row_label_start : ℕ
  pub removed_seats : List (Text × Text)
  pub accessible_seats : List (Text × Text)
  -- `row_alignment == "center"`; any other value reads as "edge".
  pub is_centered : Bool

abbrev pub max_rows : ℕ
max_rows = 100

abbrev pub max_seats_per_row : ℕ
max_seats_per_row = 100

abbrev pub max_sections : ℕ
max_sections = 40

-- `bool(value)`
abbrev pub is_truthy : (R : Floats) → Json R.F → Bool
is_truthy R Json.null = false
is_truthy R (Json.boolean b) = b
is_truthy R (Json.int (pos n)) = ltb 0 n
is_truthy R (Json.int (negsuc n)) = true
is_truthy R (Json.float x) = R.truthy x
is_truthy R (Json.string s) = not (is_blank s)
is_truthy R (Json.array Elements.no_element) = false
is_truthy R (Json.array (Elements.element x xs)) = true
is_truthy R (Json.object Fields.no_field) = false
is_truthy R (Json.object (Fields.field k x xs)) = true

-- `fields.get(key)`
abbrev pub get_field : {F : Type 0} → Text → Fields F → Json F
get_field key Fields.no_field = Json.null
get_field key (Fields.field k x xs) =
    let rest = get_field key xs in if text_eq key k then x else rest

-- `max(low, min(high, value))`, with a low bound of 0 or more, and with the two bounds opposite.
abbrev pub clamp : ℕ → ℕ → ℤ → ℕ
clamp low high value = pos_part (max_ℤ (pos low) (min_ℤ (pos high) value))

abbrev pub clamp_both : ℕ → ℤ → ℤ
clamp_both bound value = max_ℤ (pos 0 -ℤ pos bound) (min_ℤ (pos bound) value)

-- A conversion, with the default for a TypeError or a ValueError.
abbrev pub or_default : {A B : Type 0} → (A → B) → B → Converted A → Result SpecError B
or_default f default (Converted.number value) = ok (f value)
or_default f default Converted.not_a_number = ok default
or_default f default Converted.overflow = err SpecError.overflow_error

abbrev pub is_one_of : Text → List Text → Bool
is_one_of key [] = false
is_one_of key (k ∷ ks) = text_eq key k || is_one_of key ks

abbrev pub read_numbering : Text → NumberingScheme
read_numbering s =
    if text_eq s (codes "odd_desc_left")
    then NumberingScheme.odd_desc_left
    else if text_eq s (codes "even_asc_right")
    then NumberingScheme.even_asc_right
    else if text_eq s (codes "hundreds")
    then NumberingScheme.hundreds
    else if text_eq s (codes "hundreds_flat")
    then NumberingScheme.hundreds_flat
    else NumberingScheme.sequential

abbrev pub read_row_labels : Text → RowLabelScheme
read_row_labels s =
    if text_eq s (codes "all_letters") then RowLabelScheme.all_letters else RowLabelScheme.skip_io

abbrev pub read_offset : Text → OffsetMode
read_offset s =
    if text_eq s (codes "alternating") then OffsetMode.alternating else OffsetMode.repeated

-- `value in {...}`: a list or an object has no hash, and another value that is not a text is none of the
-- set's.
abbrev pub scheme_text : {F : Type 0} → Json F → Result SpecError Text
scheme_text Json.null = ok []
scheme_text (Json.boolean b) = ok []
scheme_text (Json.int n) = ok []
scheme_text (Json.float x) = ok []
scheme_text (Json.string s) = ok s
scheme_text (Json.array xs) = err SpecError.unhashable
scheme_text (Json.object xs) = err SpecError.unhashable
