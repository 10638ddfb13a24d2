-- ===== src/Venues/Spec/Bounds.antt =====
-- venues/chart_parsing.py: what a validated spec can ask for.
use Prim.Native.String.{String}
use boxoffice.Common.{
  ℕ, ◌*◌, ◌≤◌, ◌≡◌, refl, Bool, true, false, not, ◌&&◌, if◌then◌else◌, arith, take,
}
use boxoffice.Common.Int.{ℤ, pos, pos_part, neg_part, ◌-ℤ◌}
use boxoffice.Common.Text.{Text, codes}
use boxoffice.Common.Results.{Result, ok, err, ◌>>=◌}
use boxoffice.Venues.Spec.{
  Json, Fields, Values, Converted, SpecError, SectionSpec, clamp, clamp_both, or_default, max_rows,
  max_seats_per_row, get_field, scheme_text,
}
use boxoffice.Venues.Spec.Validate.{arc_radius, as_float, zero_F, pitch, fold_center, section_of}
use boxoffice.Venues.Spec.Center.{derived_center_offset}

-- A success has the property.
unfoldable pub Yields : {A : Type 0} → (A → Type 0) → Result SpecError A → Type 0
Yields P (ok a) = P a
Yields P (err e) = Unit

pub Yields-bind :
    {A B : Type 0} (Q : A → Type 0) (P : B → Type 0) (m : Result SpecError A)
    (f : A → Result SpecError B)
    → Yields Q m
    → ((a : A) → Q a → Yields P (f a))
    → Yields P (m >>= f)
unfolding Yields
Yields-bind Q P (ok a) f q step = step a q
Yields-bind Q P (err e) f q step = tt

pub Yields-ok : {A : Type 0} (P : A → Type 0) (a : A) → P a → Yields P (ok a)
unfolding Yields
Yields-ok P a p = p

pub Yields-then :
    {A B : Type 0} (P : B → Type 0) (m : Result SpecError A) (f : A → Result SpecError B)
    → ((a : A) → Yields P (f a))
    → Yields P (m >>= f)
unfolding Yields
Yields-then P (ok a) f step = step a
Yields-then P (err e) f step = tt

either : {A : Type 0} (P : A → Type 0) (b : Bool) (x y : A) → P x → P y → P (if b then x else y)
either P true x y p q = p
either P false x y p q = q

-- From low to high.
abbrev pub Between : ℕ → ℕ → ℕ → Type 0
Between low high n = (low ≤ n) × (n ≤ high)

Between-clamp : (low high : ℕ) (value : ℤ) → low ≤ high → Between low high (clamp low high value)
Between-clamp low high value h = (ground (arith, h), ground (arith, h))

or_default-Between :
    (low high default : ℕ) (c : Converted ℤ)
    → low ≤ high
    → Between low high default
    → Yields (Between low high) (or_default (clamp low high) default c)
unfolding Yields
or_default-Between low high default (Converted.number value) h d = Between-clamp low high value h
or_default-Between low high default Converted.not_a_number h d = d
or_default-Between low high default Converted.overflow h d = tt

clamped_rows : (c : Converted ℤ) → Yields (Between 1 100) (or_default (clamp 1 100) 4 c)
clamped_rows c = or_default-Between 1 100 4 c (omega arith) (omega arith, omega arith)

clamped_seats : (c : Converted ℤ) → Yields (Between 1 100) (or_default (clamp 1 100) 8 c)
clamped_seats c = or_default-Between 1 100 8 c (omega arith) (omega arith, omega arith)

clamped_start : (c : Converted ℤ) → Yields (Between 0 200) (or_default (clamp 0 200) 0 c)
clamped_start c = or_default-Between 0 200 0 c (omega arith) (omega arith, omega arith)

-- From -bound to bound.
abbrev pub Within : ℕ → ℤ → Type 0
Within bound z = (pos_part z ≤ bound) × (neg_part z ≤ bound)

Within-clamp_both : (bound : ℕ) (value : ℤ) → Within bound (clamp_both bound value)
unfolding ◌-ℤ◌
Within-clamp_both bound value = (ground arith, ground arith)

or_default-Within :
    (bound : ℕ) (c : Converted ℤ) → Yields (Within bound) (or_default (clamp_both bound) (pos 0) c)
unfolding Yields
or_default-Within bound (Converted.number value) = Within-clamp_both bound value
or_default-Within bound Converted.not_a_number = (omega arith, omega arith)
or_default-Within bound Converted.overflow = tt

module _ (V : Values) where
  open V use {floats, to_int}
  open floats use {F}

  -- The counts of a section are within their clamps.
  unfoldable pub IsClamped : SectionSpec F → Type 0
  IsClamped s =
      Between 1 100 s.rows
      × Between 1 100 s.seats_per_row
      × Within 100 s.alt_row_seat_delta
      × (s.row_label_start ≤ 200)

  -- A clamped section with a name that is cut from the given one.
  unfoldable pub IsNamed : Text → SectionSpec F → Type 0
  IsNamed name s = (s.name ≡ take 255 name) × IsClamped s

  fold_center-IsNamed :
      (name : Text) (s : SectionSpec F) → IsNamed name s → IsNamed name (fold_center V s)
  unfolding IsNamed IsClamped
  fold_center-IsNamed name s named =
      either (IsNamed name) (s.is_centered && not (floats.truthy s.row_x_offset))
        (record s { row_x_offset = derived_center_offset V s }) s named named

  pub section_of-IsNamed :
      (name : Text) (raw : Fields F) → Yields (IsNamed name) (section_of V name raw)
  unfolding section_of IsNamed IsClamped
  section_of-IsNamed name raw =
      let P = IsNamed name in
      let get : String → Json F = λ key. get_field (codes key) raw in
      Yields-then P (arc_radius V (get "arc_radius")) _ (λ radius.
        Yields-bind (Between 1 100) P (or_default (clamp 1 max_rows) 4 (to_int (get "rows"))) _
          (clamped_rows _)
          (λ rows r.
            Yields-bind (Between 1 100) P
              (or_default (clamp 1 max_seats_per_row) 8 (to_int (get "seats_per_row"))) _
              (clamped_seats _)
              (λ seats s. Yields-then P (as_float V (get "origin_x") (zero_F V)) _ (λ x.
                Yields-then P (as_float V (get "origin_y") (zero_F V)) _ (λ y.
                  Yields-then P (as_float V (get "rotation") (zero_F V)) _ (λ rotation.
                    Yields-then P (pitch V (get "seat_pitch")) _ (λ seat_pitch.
                      Yields-then P (pitch V (get "row_pitch")) _ (λ row_pitch.
                        Yields-then P (scheme_text (get "offset_mode")) _ (λ mode.
                          Yields-then P (as_float V (get "row_x_offset") (zero_F V)) _ (λ offset.
                            Yields-bind (Within 100) P
                              (or_default (clamp_both max_seats_per_row) (pos 0)
                                (to_int (get "alt_row_seat_delta")))
                              _ (or_default-Within 100 _)
                              (λ delta d.
                                Yields-then P (scheme_text (get "numbering_scheme")) _ (λ numbering.
                                  Yields-then P (scheme_text (get "row_label_scheme")) _ (λ labels.
                                    Yields-bind (Between 0 200) P
                                      (or_default (clamp 0 (2 * max_rows)) 0
                                        (to_int (get "row_label_start")))
                                      _ (clamped_start _)
                                      (λ start b. Yields-ok P _ (
                                        fold_center-IsNamed name _
                                          (refl, (r, s, d, b.1)))))))))))))))))
