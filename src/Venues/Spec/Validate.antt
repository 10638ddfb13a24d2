-- ===== src/Venues/Spec/Validate.antt =====
-- venues/chart_parsing.py: validate_chart_spec.
use Prim.Native.String.{String}
use boxoffice.Common.{
  ℕ, zero, suc, ◌+◌, ◌*◌, Bool, false, not, ◌&&◌, Option, none, some, List, [], ◌∷◌, ◌++◌,
  if◌then◌else◌, length, take,
}
use boxoffice.Common.Int.{pos}
use boxoffice.Common.Text.{Text, codes, text_eq, is_blank, strip, lower}
use boxoffice.Common.Decimal.{decimal}
use boxoffice.Common.Results.{Result, ok, err, ◌>>=◌}
use boxoffice.Venues.Spec.{
  Json, Elements, Fields, Values, SpecError, SectionSpec, max_rows, max_seats_per_row, max_sections,
  is_truthy, get_field, clamp, clamp_both, or_default, is_one_of, read_numbering, read_row_labels,
  read_offset, scheme_text,
}
use boxoffice.Venues.Spec.Center.{derived_center_offset}

-- f"{base_name} ({suffix})"
abbrev pub suffixed : Text → ℕ → Text
suffixed base suffix = base ++ codes " (" ++ decimal suffix ++ codes ")"

-- The loop that looks for a name that is not taken.
unfoldable pub free_name : ℕ → Text → ℕ → Text → List Text → Text
free_name zero base suffix name seen = name
free_name (suc fuel) base suffix name seen =
    let rest = free_name fuel base (suffix + 1) (suffixed base suffix) seen in
    if is_one_of (lower name) seen then rest else name

-- Of so many suffixes one at least is free.
unfoldable pub unique_name : Text → List Text → Text
unfolding free_name
unique_name base seen = free_name (length seen + 2) base 2 base seen

abbrev pub first_elements : {F : Type 0} → ℕ → Elements F → Elements F
first_elements zero xs = Elements.no_element
first_elements (suc n) Elements.no_element = Elements.no_element
first_elements (suc n) (Elements.element x xs) = Elements.element x (first_elements n xs)

-- A validated spec.
pub record Spec (F : Type 0) : Type 0 where
  pub chart_name : Text
  pub sections : List (SectionSpec F)

module _ (V : Values) where
  open V use {floats, to_int, to_float, to_text, leb_F}
  open floats use {F, of_int, truthy}

  abbrev pub zero_F : F
  zero_F = of_int (pos 0)

  abbrev pub one_F : F
  one_F = of_int (pos 1)

  -- `str(value or "")`
  abbrev pub text_or_empty : Json F → Text
  text_or_empty value = if is_truthy floats value then to_text value else []

  abbrev pub as_float : Json F → F → Result SpecError F
  as_float value default = or_default (λ x. x) default (to_float value)

  -- `_as_float(value, 1.0) or 1.0`
  abbrev pub pitch : Json F → Result SpecError F
  pitch value = as_float value one_F >>= λ x. ok (if truthy x then x else one_F)

  abbrev pub positive_radius : F → Option F
  positive_radius x = if leb_F x zero_F then none else some x

  abbrev pub arc_radius : Json F → Result SpecError (Option F)
  arc_radius Json.null = ok none
  arc_radius value = as_float value zero_F >>= λ x. ok (positive_radius x)

  -- `[str(entry[0]), str(entry[1])]` of an entry with two elements.
  abbrev pub identity : Json F → List (Text × Text)
  identity (Json.array (Elements.element x (Elements.element y Elements.no_element))) =
      (to_text x, to_text y) ∷ []
  identity value = []

  abbrev pub identities : Elements F → List (Text × Text)
  identities Elements.no_element = []
  identities (Elements.element x xs) = identity x ++ identities xs

  abbrev pub seat_identity_list : Json F → List (Text × Text)
  seat_identity_list (Json.array xs) = identities xs
  seat_identity_list value = []

  abbrev pub section_name : ℕ → Fields F → Text
  section_name index raw =
      let name = strip (text_or_empty (get_field (codes "name") raw)) in
      if is_blank name then codes "Section " ++ decimal (index + 1) else name

  abbrev pub is_center : Json F → Bool
  is_center (Json.string s) = text_eq s (codes "center")
  is_center value = false

  -- A center alignment, as the offset that it stands for, unless the spec has one.
  abbrev pub fold_center : SectionSpec F → SectionSpec F
  fold_center section =
      if section.is_centered && not (truthy section.row_x_offset)
      then record section { row_x_offset = derived_center_offset V section }
      else section

  -- The columns of the section that a raw one stands for, under a name.
  unfoldable pub section_of : Text → Fields F → Result SpecError (SectionSpec F)
  section_of name raw =
      let get : String → Json F = λ key. get_field (codes key) raw in
      arc_radius (get "arc_radius") >>= λ radius.
      or_default (clamp 1 max_rows) 4 (to_int (get "rows")) >>= λ rows.
      or_default (clamp 1 max_seats_per_row) 8 (to_int (get "seats_per_row")) >>= λ seats_per_row.
      as_float (get "origin_x") zero_F >>= λ origin_x.
      as_float (get "origin_y") zero_F >>= λ origin_y.
      as_float (get "rotation") zero_F >>= λ rotation. pitch (get "seat_pitch") >>= λ seat_pitch.
      pitch (get "row_pitch") >>= λ row_pitch. scheme_text (get "offset_mode") >>= λ offset_mode.
      as_float (get "row_x_offset") zero_F >>= λ row_x_offset.
      or_default (clamp_both max_seats_per_row) (pos 0) (to_int (get "alt_row_seat_delta"))
      >>= λ delta. scheme_text (get "numbering_scheme") >>= λ numbering.
          scheme_text (get "row_label_scheme") >>= λ row_labels.
          or_default (clamp 0 (2 * max_rows)) 0 (to_int (get "row_label_start"))
          >>= λ row_label_start. ok (
              fold_center (record {
                name = take 255 name;
                tier = take 100 (text_or_empty (get "tier"));
                rows = rows;
                seats_per_row = seats_per_row;
                origin_x = origin_x;
                origin_y = origin_y;
                rotation = rotation;
                seat_pitch = seat_pitch;
                row_pitch = row_pitch;
                arc_radius = radius;
                offset_mode = read_offset offset_mode;
                row_x_offset = row_x_offset;
                alt_row_seat_delta = delta;
                numbering_scheme = read_numbering numbering;
                row_label_scheme = read_row_labels row_labels;
                row_label_start = row_label_start;
                removed_seats = seat_identity_list (get "removed_seats");
                accessible_seats = seat_identity_list (get "accessible_seats");
                is_centered = is_center (get "row_alignment");
              }))

  -- The loop over the raw sections, with the index and the names that are taken, in lower case.
  unfoldable pub validate_sections :
      ℕ → List Text → Elements F → Result SpecError (List (SectionSpec F))
  validate_sections index seen Elements.no_element = ok []
  validate_sections index seen (Elements.element (Json.object raw) xs) =
      let name = unique_name (section_name index raw) seen in
      section_of name raw >>= λ section.
      validate_sections (index + 1) (lower name ∷ seen) xs >>= λ sections. ok (section ∷ sections)
  validate_sections index seen (Elements.element raw xs) = validate_sections (index + 1) seen xs

  abbrev pub chart_name_of : Fields F → Text
  chart_name_of spec =
      let name = strip (text_or_empty (get_field (codes "chart_name") spec)) in
      take 255 (if is_blank name then codes "Parsed chart" else name)

  abbrev pub some_sections : Fields F → List (SectionSpec F) → Result SpecError (Spec F)
  some_sections spec [] = err SpecError.no_sections
  some_sections spec (section ∷ sections) =
      ok (record { chart_name = chart_name_of spec; sections = section ∷ sections })

  abbrev pub validate_fields : Fields F → Json F → Result SpecError (Spec F)
  validate_fields spec (Json.array (Elements.element x xs)) =
      validate_sections 0 [] (first_elements max_sections (Elements.element x xs))
      >>= some_sections spec
  validate_fields spec raw_sections = err SpecError.no_sections

  unfoldable pub validate_chart_spec : Json F → Result SpecError (Spec F)
  unfolding validate_sections
  validate_chart_spec (Json.object spec) = validate_fields spec (get_field (codes "sections") spec)
  validate_chart_spec value = err SpecError.not_a_spec
