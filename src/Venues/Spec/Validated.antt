-- ===== src/Venues/Spec/Validated.antt =====
-- venues/chart_parsing.py: a validated spec, its names and the seats that it asks for.
use boxoffice.Common.{
  ℕ, zero, suc, ◌+◌, ◌*◌, ◌≤◌, ◌≡◌, refl, Bool, false, ◌||◌, List, [], ◌∷◌, map, length, arith,
  take, All, sum_by, subst,
}
use boxoffice.Common.Text.{Text, codes, text_eq, lower}
use boxoffice.Common.Results.{Result, ok, err}
use boxoffice.Common.Pairs.{All-imp}
use boxoffice.Venues.Spec.{
  Json, Elements, Fields, Values, SpecError, SectionSpec, is_one_of, max_sections, get_field,
}
use boxoffice.Venues.Spec.Validate.{
  Spec, unique_name, first_elements, section_of, validate_sections, validate_chart_spec,
  section_name, some_sections, validate_fields,
}
use boxoffice.Venues.Spec.Names.{unique_name_free}
use boxoffice.Venues.Spec.Bounds.{
  Yields, Yields-bind, Yields-ok, Between, IsClamped, IsNamed, section_of-IsNamed,
}
use boxoffice.Venues.Spec.SeatCounts.{seat_count, seat_count-le}

-- No two names are one name in two cases.
unfoldable pub Distinct : List Text → Type 0
Distinct [] = Unit
Distinct (n ∷ names) = All (λ m. text_eq (lower m) (lower n) ≡ false) names × Distinct names

Unused : List Text → List Text → Type 0
Unused seen names = All (λ n. is_one_of (lower n) seen ≡ false) names

size : {F : Type 0} → Elements F → ℕ
size Elements.no_element = 0
size (Elements.element x xs) = suc (size xs)

size-first_elements : {F : Type 0} (n : ℕ) (xs : Elements F) → size (first_elements n xs) ≤ n
unfolding size
size-first_elements zero xs = omega arith
size-first_elements (suc n) Elements.no_element = omega arith
size-first_elements (suc n) (Elements.element x xs) = omega (arith, size-first_elements n xs)

or_false : (a b : Bool) → (a || b) ≡ false → (a ≡ false) × (b ≡ false)
or_false a b h = (ground (arith, h), ground (arith, h))

Yields-imp :
    {A : Type 0} (P Q : A → Type 0) (m : Result SpecError A)
    → ((a : A) → P a → Q a)
    → Yields P m
    → Yields Q m
unfolding Yields
Yields-imp P Q (ok a) h p = h a p
Yields-imp P Q (err e) h p = tt

holds : {A : Type 0} (P : A → Type 0) (m : Result SpecError A) (a : A) → Yields P m → m ≡ ok a → P a
unfolding Yields
holds P m a p e = subst (Yields P) e p

module _ (V : Values) where
  open V use {floats}
  open floats use {F}

  AreNamed : List Text → List (SectionSpec F) → Type 0
  AreNamed [] [] = Unit
  AreNamed [] (s ∷ sections) = ⊥
  AreNamed (n ∷ names) [] = ⊥
  AreNamed (n ∷ names) (s ∷ sections) = IsNamed V n s × AreNamed names sections

  -- Sections under names that were free.
  Validated : ℕ → List Text → List (SectionSpec F) → Type 0
  Validated most seen sections =
      (names : List Text) × Distinct names
      × Unused seen names
      × AreNamed names sections
      × (length sections ≤ most)

  next_section :
      (most : ℕ) (seen : List Text) (name : Text) (section : SectionSpec F)
      (sections : List (SectionSpec F))
      → is_one_of (lower name) seen ≡ false
      → IsNamed V name section
      → Validated most (lower name ∷ seen) sections
      → Validated (suc most) seen (section ∷ sections)
  unfolding Validated Distinct Unused AreNamed
  next_section most seen name section sections free named (names, distinct, unused, are, few) = (
    name ∷ names,
    (All-imp _ _ names (λ n h. (or_false _ _ h).0) unused, distinct),
    (free, All-imp _ _ names (λ n h. (or_false _ _ h).1) unused),
    (named, are),
    omega (arith, few),
  )

  nothing : (seen : List Text) → Validated 0 seen []
  unfolding Validated Distinct Unused AreNamed
  nothing seen = ([], tt, tt, tt, omega arith)

  more_room :
      (few most : ℕ) (seen : List Text) (sections : List (SectionSpec F))
      → few ≤ most
      → Validated few seen sections
      → Validated most seen sections
  unfolding Validated
  more_room few most seen sections h (names, distinct, unused, are, count) =
      (names, distinct, unused, are, omega (arith, count, h))

  validate_sections-Validated :
      (index : ℕ) (seen : List Text) (xs : Elements F)
      → Yields (Validated (size xs) seen) (validate_sections V index seen xs)
  unfolding validate_sections size
  validate_sections-Validated index seen Elements.no_element =
      Yields-ok (Validated 0 seen) [] (nothing seen)
  validate_sections-Validated index seen (Elements.element (Json.object raw) xs) =
      let name = unique_name (section_name V index raw) seen in
      let P = Validated (suc (size xs)) seen in
      Yields-bind (IsNamed V name) P (section_of V name raw) _ (section_of-IsNamed V name raw)
        (λ section named.
          Yields-bind (Validated (size xs) (lower name ∷ seen)) P
            (validate_sections V (index + 1) (lower name ∷ seen) xs) _
            (validate_sections-Validated (index + 1) (lower name ∷ seen) xs)
            (λ sections rest. Yields-ok P _ (
              next_section (size xs) seen name section sections (unique_name_free _ seen) named
                rest)))
  validate_sections-Validated index seen (Elements.element raw xs) =
      Yields-imp (Validated (size xs) seen) (Validated (suc (size xs)) seen)
        (validate_sections V (index + 1) seen xs)
        (λ sections. more_room (size xs) (suc (size xs)) seen sections (omega arith))
        (validate_sections-Validated (index + 1) seen xs)

  -- The names of sections, cut to the column's width.
  AreNamed-sections :
      (names : List Text) (sections : List (SectionSpec F))
      → AreNamed names sections
      → All (IsClamped V) sections
        × (map (λ s. s.name) sections ≡ map (take 255) names)
        × (sum_by (seat_count V) sections ≤ length sections * 20000)
  unfolding AreNamed IsNamed
  AreNamed-sections [] [] are = (tt, refl, omega arith)
  AreNamed-sections [] (s ∷ sections) are = absurd are
  AreNamed-sections (n ∷ names) [] are = absurd are
  AreNamed-sections (n ∷ names) (s ∷ sections) ((cut, clamped), are) =
      let (all, named, few) = AreNamed-sections names sections are in
      ((clamped, all), rw (cut, named) refl, omega (arith, few, seat_count-le V s clamped))

  -- Sections with the bounds of a spec.
  unfoldable pub IsBounded : List (SectionSpec F) → Type 0
  IsBounded sections =
      Between 1 40 (length sections)
      × All (IsClamped V) sections
      × (sum_by (seat_count V) sections ≤ 800000)
      × ((names : List Text) × Distinct names × (map (λ s. s.name) sections ≡ map (take 255) names))

  some_sections-IsBounded :
      (fields : Fields F) (sections : List (SectionSpec F))
      → Validated 40 [] sections
      → Yields (λ spec. IsBounded spec.sections) (some_sections V fields sections)
  unfolding Validated IsBounded Yields
  some_sections-IsBounded fields [] valid = tt
  some_sections-IsBounded fields (s ∷ sections) (names, distinct, unused, are, few) =
      let (all, named, seats) = AreNamed-sections names (s ∷ sections) are in
      ((omega arith, few), all, omega (arith, seats, few), (names, distinct, named))

  fields-IsBounded :
      (fields : Fields F) (raw : Json F)
      → Yields (λ spec. IsBounded spec.sections) (validate_fields V fields raw)
  unfolding Yields
  fields-IsBounded fields (Json.array (Elements.element x xs)) =
      let kept = first_elements max_sections (Elements.element x xs) in
      Yields-bind (Validated 40 []) (λ spec. IsBounded spec.sections)
        (validate_sections V 0 [] kept) (some_sections V fields)
        (Yields-imp (Validated (size kept) []) (Validated 40 []) (validate_sections V 0 [] kept)
          (λ sections.
            more_room (size kept) 40 [] sections (size-first_elements 40 (Elements.element x xs)))
          (validate_sections-Validated 0 [] kept))
        (some_sections-IsBounded fields)
  fields-IsBounded fields raw = tt

  value-IsBounded :
      (value : Json F) → Yields (λ spec. IsBounded spec.sections) (validate_chart_spec V value)
  unfolding validate_chart_spec Yields
  value-IsBounded (Json.object fields) =
      fields-IsBounded fields (get_field (codes "sections") fields)
  value-IsBounded value = tt

-- A spec that validate_chart_spec accepts, whatever value the service sent, has 1 to 40 sections; each
-- has 1 to 100 rows of 1 to 100 seats, changed by at most 100 in every other row, and labels that start
-- at 200 at most; they stand for at most 800,000 seats together; and the sections' names are the first
-- 255 characters of names that differ in more than case.
pub validate_chart_spec-IsBounded :
    (V : Values) (value : Json (V.floats.F)) (spec : Spec (V.floats.F))
    → validate_chart_spec V value ≡ ok spec
    → IsBounded V spec.sections
validate_chart_spec-IsBounded V value spec e =
    holds (λ s. IsBounded V s.sections) (validate_chart_spec V value) spec (value-IsBounded V value)
      e
