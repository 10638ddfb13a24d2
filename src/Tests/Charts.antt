-- ===== src/Tests/Charts.antt =====
-- Runs of the model, and the theorems at those inputs: a parsed chart.
use boxoffice.Common.{
  ℕ, ◌+◌, ◌≤◌, ◌≡◌, refl, Bool, true, false, not, ◌==◌, Option, none, some, List, [], ◌∷◌,
}
use boxoffice.Common.Int.{ℤ, pos, pos_part, neg_part, ltb_ℤ, leb_ℤ, ◌-ℤ◌}
use boxoffice.Common.Text.{Text, codes, lower}
use boxoffice.Common.Results.{ok, err}
use boxoffice.Venues.{NumberingScheme, RowLabelScheme, OffsetMode}
use boxoffice.Venues.Spec.{
  Json, Elements, Fields, Converted, Values, SpecError, SectionSpec, is_one_of,
}
use boxoffice.Venues.Spec.Validate.{
  Spec, unique_name, section_of, validate_sections, validate_chart_spec, free_name,
}
use boxoffice.Venues.Spec.Names.{unique_name_free}
use boxoffice.Venues.Spec.Validated.{IsBounded, validate_chart_spec-IsBounded}
use boxoffice.Tests.Seating.{integers}

abbrev to_number : Json ℤ → Converted ℤ
to_number Json.null = Converted.not_a_number
to_number (Json.boolean b) = Converted.not_a_number
to_number (Json.int n) = Converted.number n
to_number (Json.float x) = Converted.number x
to_number (Json.string s) = Converted.not_a_number
to_number (Json.array xs) = Converted.not_a_number
to_number (Json.object xs) = Converted.not_a_number

abbrev to_string : Json ℤ → Text
to_string Json.null = codes "None"
to_string (Json.boolean b) = codes "True"
to_string (Json.int n) = codes "1"
to_string (Json.float x) = codes "1"
to_string (Json.string s) = s
to_string (Json.array xs) = []
to_string (Json.object xs) = []

abbrev values : Values
values = record {
  floats = integers;
  to_int = to_number;
  to_float = to_number;
  to_text = to_string;
  ltb_F = ltb_ℤ;
  leb_F = leb_ℤ;
  neg = λ a. pos 0 -ℤ a;
  abs = λ a. pos (pos_part a + neg_part a);
}

abbrev named : Text → ℤ → Json ℤ
named name rows = Json.object (
    Fields.field (codes "name") (Json.string name)
      (Fields.field (codes "rows") (Json.int rows) Fields.no_field))

-- Two boxes in two cases, the second with too many rows.
abbrev reply : Json ℤ
reply = Json.object (
    Fields.field (codes "sections")
      (Json.array (
        Elements.element (named (codes "Box") (pos 2))
          (Elements.element (named (codes "BOX") (pos 10000)) Elements.no_element)))
      Fields.no_field)

abbrev plain : Text → ℕ → SectionSpec ℤ
plain name rows = record {
  name = name;
  tier = [];
  rows = rows;
  seats_per_row = 8;
  origin_x = pos 0;
  origin_y = pos 0;
  rotation = pos 0;
  seat_pitch = pos 1;
  row_pitch = pos 1;
  arc_radius = none;
  offset_mode = OffsetMode.repeated;
  row_x_offset = pos 0;
  alt_row_seat_delta = pos 0;
  numbering_scheme = NumberingScheme.sequential;
  row_label_scheme = RowLabelScheme.skip_io;
  row_label_start = 0;
  removed_seats = [];
  accessible_seats = [];
  is_centered = false;
}

abbrev boxes : Spec ℤ
boxes = record {
  chart_name = codes "Parsed chart";
  sections = plain (codes "Box") 2 ∷ plain (codes "BOX (2)") 100 ∷ [];
}

validate_reply : validate_chart_spec values reply ≡ ok boxes
unfolding validate_chart_spec validate_sections section_of unique_name free_name
    boxoffice.Common.Decimal.decimal ◌-ℤ◌
validate_reply = refl

-- A scheme that is a list is looked up in a set.
validate_list_scheme :
    validate_chart_spec values (
      Json.object (
        Fields.field
          (codes "sections")
          (Json.array (
            Elements.element
              (Json.object (
                Fields.field
                  (codes "numbering_scheme")
                  (Json.array Elements.no_element)
                  Fields.no_field))
              Elements.no_element))
          Fields.no_field))
    ≡ err SpecError.unhashable
unfolding validate_chart_spec validate_sections section_of
validate_list_scheme = refl

validate_chart_spec-IsBounded_example : IsBounded values boxes.sections
validate_chart_spec-IsBounded_example =
    validate_chart_spec-IsBounded values reply boxes validate_reply

unique_name_free_example :
    is_one_of
      (lower (unique_name (codes "Box") (codes "box" ∷ codes "box (2)" ∷ [])))
      (codes "box" ∷ codes "box (2)" ∷ [])
    ≡ false
unique_name_free_example = unique_name_free (codes "Box") (codes "box" ∷ codes "box (2)" ∷ [])
