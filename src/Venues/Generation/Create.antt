-- ===== src/Venues/Generation/Create.antt =====
-- venues/generation.py, generate_seats: its seats are created, and no ticket loses its seat.
use boxoffice.Common.{
  ℕ, ◌+◌, ◌≤◌, ◌≡◌, refl, subst, ◌∙◌, inl, inr, Bool, true, false, not, ◌&&◌, ◌||◌, List, [], ◌∷◌,
  ◌++◌, map, arith, ◌==◌, ==_iff, ==_refl, if◌then◌else◌, &&_split, Bool-cases, length, any,
  count_by, All, select, contains, is_empty, ltb,
}
use boxoffice.Common.Text.{Text}
use boxoffice.Common.Counting.{count_by-append, count_by-select, count_by-le}
use boxoffice.Common.Pairs.{All-imp, All-always}
use boxoffice.Common.Results.{raise_if, ◌>>◌, Result, ok, ok-injective, err-ne-ok}
use boxoffice.Venues.{Floats, Layout, ChartSeat}
use boxoffice.Venues.Generation.{
  GenerationError, Charts, same_seat, seats_of, pks, is_left, stands_on, is_live_on, delete_seats,
  clear_section, number_seats, bulk_create, join_section, build_seats, generate_seats,
}
use boxoffice.Venues.Generation.Roster.{build_seats_once, build_seats_elsewhere}

-- unique_seat_per_section.
abbrev pub IsUnique : {F : Type 0} → List (ChartSeat F) → Type 0
IsUnique seats =
    (section : ℕ) (label number : Text) → count_by (same_seat section label number) seats ≤ 1

module _ {F : Type 0} where
  number_count :
      (section : ℕ) (label number : Text) (next : ℕ) (xs : List (ChartSeat F))
      → count_by (same_seat section label number) (number_seats next xs)
        ≡ count_by (same_seat section label number) xs
  number_count section label number next [] = refl
  number_count section label number next (x ∷ xs) =
      omega (arith, number_count section label number (next + 1) xs)

  no_duplicate_in :
      (seats xs : List (ChartSeat F))
      → IsUnique seats
      → any (λ s. ltb 1 (count_by (same_seat s.section s.row_label s.number) seats)) xs ≡ false
  no_duplicate_in seats [] u = refl
  no_duplicate_in seats (x ∷ xs) u =
      ground (arith, u x.section x.row_label x.number, no_duplicate_in seats xs u)

  -- The rows of a section are those whose keys the call collects.
  collected :
      (section : ℕ) (xs : List (ChartSeat F))
      → All
          (λ x. (x.section == section) ≡ true → contains x.id (pks (seats_of xs section)) ≡ true)
          xs
  collected section [] = tt
  collected section (x ∷ xs) = (
    λ e. ground (arith, e, ==_refl x.id),
    All-imp (λ y. (y.section == section) ≡ true → contains y.id (pks (seats_of xs section)) ≡ true)
        _ xs (λ y h e. ground (arith, h e)) (collected section xs),
  )

  count_zero :
      (p : ChartSeat F → Bool) (xs : List (ChartSeat F))
      → All (λ x. p x ≡ false) xs
      → count_by p xs ≡ 0
  count_zero p [] a = refl
  count_zero p (x ∷ xs) a = rw a.0 (omega (arith, count_zero p xs a.1))

  dropped :
      (section : ℕ) (label number : Text) (gone : List ℕ) (x : ChartSeat F)
      → ((x.section == section) ≡ true → contains x.id gone ≡ true)
      → (is_left gone x.id && same_seat section label number x) ≡ false
  dropped section label number gone x h = elim (Bool-cases (x.section == section)) [
    | inl here ↦ rw (h here) refl
    | inr elsewhere ↦ ground (arith, elsewhere)
  ]

  gone_from :
      (section : ℕ) (label number : Text) (xs : List (ChartSeat F))
      → count_by
          (same_seat section label number)
          (select (λ s. is_left (pks (seats_of xs section)) s.id) xs)
        ≡ 0
  gone_from section label number xs =
      count_by-select (same_seat section label number)
        (λ s. is_left (pks (seats_of xs section)) s.id) xs
      ∙ count_zero _ xs (
          All-imp _ _ xs (λ x h. dropped section label number (pks (seats_of xs section)) x h)
            (collected section xs))

  empty_section :
      (section : ℕ) (label number : Text) (xs : List (ChartSeat F))
      → is_empty (pks (seats_of xs section)) ≡ true
      → count_by (same_seat section label number) xs ≡ 0
  empty_section section label number [] e = refl
  empty_section section label number (x ∷ xs) e =
      ground (arith, e, empty_section section label number xs)

  -- Ready for the new rows: unique, with none of the section.
  record IsClear (section : ℕ) (seats : List (ChartSeat F)) : Type 0 where
    unique : IsUnique seats
    clear : (label number : Text) → count_by (same_seat section label number) seats ≡ 0

  deleted-IsClear :
      (t : Charts F) (section : ℕ)
      → IsUnique t.seats
      → IsClear section (delete_seats t (pks (seats_of t.seats section))).seats
  unfolding delete_seats
  deleted-IsClear t section u = record {
    unique = λ s a n.
        rw
          (count_by-select (same_seat s a n) (λ x. is_left (pks (seats_of t.seats section)) x.id)
            t.seats)
          (omega (
            arith,
            u s a n,
            count_by-le (λ x. is_left (pks (seats_of t.seats section)) x.id && same_seat s a n x)
                (same_seat s a n) t.seats
                (All-always _ t.seats (λ x e.
                  (&&_split (is_left (pks (seats_of t.seats section)) x.id) (same_seat s a n x)
                    e).1)),
          ));
    clear = λ a n. gone_from section a n t.seats;
  }

  deleted_of :
      (live replace items : Bool) {t t' : Charts F}
      → (raise_if live GenerationError.live_tickets
          >> (raise_if (not replace) GenerationError.already_seated
              >> (raise_if items GenerationError.protected_error >> ok t)))
        ≡ ok t'
      → t ≡ t'
  deleted_of false true false e = ok-injective e
  deleted_of true replace items e = absurd (err-ne-ok e)
  deleted_of false false items e = absurd (err-ne-ok e)
  deleted_of false true true e = absurd (err-ne-ok e)

  -- What the guards let through.
  clear_section-IsClear :
      (t : Charts F) (section : ℕ) (replace : Bool) (t' : Charts F)
      → IsUnique t.seats
      → clear_section t (pks (seats_of t.seats section)) replace ≡ ok t'
      → IsClear section t'.seats
  clear_section-IsClear t section replace t' u e =
      elim (Bool-cases (is_empty (pks (seats_of t.seats section)))) [
        | inl nothing ↦
            subst (λ (c : Charts F). IsClear section c.seats) (ok-injective (rw nothing at e))
              (record { unique = u; clear = λ a n. empty_section section a n t.seats nothing })
        | inr seated ↦
            subst (λ (c : Charts F). IsClear section c.seats) (deleted_of _ _ _ (rw seated at e))
              (deleted-IsClear t section u)
      ]

replacing : (replace empty : Bool) → (replace || empty) ≡ true → empty ≡ false → replace ≡ true
replacing replace empty may e = ground (arith, may, e)

module _ (R : Floats) (t : Charts R.F) (layout : Layout R.F) (row_counts : List ℕ)
    (accessible : ℕ → List ℕ) (removed_ids accessible_ids : List (Text × Text)) where
  abbrev built : List (ChartSeat R.F)
  built = build_seats R layout accessible removed_ids accessible_ids row_counts

  abbrev stored : Charts R.F → List (ChartSeat R.F)
  stored t' = t'.seats ++ number_seats t'.db.next_id built

  stored-IsUnique : (t' : Charts R.F) → IsClear layout.section.id t'.seats → IsUnique (stored t')
  stored-IsUnique t' c s a n =
      let split = count_by-append (same_seat s a n) t'.seats (number_seats t'.db.next_id built) in
      let same = number_count s a n t'.db.next_id built in
      elim (Bool-cases (layout.section.id == s)) [
        | inr other ↦ omega (
          arith,
          split,
          same,
          c.unique s a n,
          build_seats_elsewhere R layout accessible removed_ids accessible_ids s a n row_counts
              other,
        )
        | inl own ↦ omega (
          arith,
          split,
          same,
          subst (λ k. count_by (same_seat k a n) t'.seats ≡ 0) ((==_iff layout.section.id s).0 own)
              (c.clear a n),
          build_seats_once R layout accessible removed_ids accessible_ids s a n row_counts,
        )
      ]

  abbrev saved : Charts R.F → Charts R.F
  saved t' = record t' {
    seats = stored t';
    db = record t'.db {
      seats = t'.db.seats ++ map (join_section layout.section) (number_seats t'.db.next_id built);
      next_id = t'.db.next_id + length built;
    };
  }

  created :
      (t' : Charts R.F)
      → IsClear layout.section.id t'.seats
      → bulk_create t' layout.section built ≡ ok (saved t')
  unfolding bulk_create
  created t' c = rw (no_duplicate_in (stored t') (stored t') (stored-IsUnique t' c)) refl

  abbrev generated : Bool → Result GenerationError (Charts R.F)
  generated replace =
      generate_seats R t layout row_counts accessible removed_ids accessible_ids replace

  abbrev existing : List ℕ
  existing = pks (seats_of t.seats layout.section.id)

  after_clear :
      (replace : Bool) (t' : Charts R.F)
      → IsUnique t.seats
      → clear_section t existing replace ≡ ok t'
      → generated replace ≡ ok (saved t')
  unfolding generate_seats
  after_clear replace t' u e =
      rw e (created t' (clear_section-IsClear t layout.section.id replace t' u e))

  -- The section's seats of an identity afterwards.
  stored-count :
      (t' : Charts R.F)
      → IsClear layout.section.id t'.seats
      → (label number : Text)
      → count_by (same_seat layout.section.id label number) (stored t')
        ≡ count_by (same_seat layout.section.id label number) built
  stored-count t' c a n = omega (
    arith,
    count_by-append (same_seat layout.section.id a n) t'.seats (number_seats t'.db.next_id built),
    number_count layout.section.id a n t'.db.next_id built,
    c.clear a n,
  )

  passes :
      (replace : Bool)
      → (replace || is_empty existing) ≡ true
      → any (is_live_on existing) t.db.tickets ≡ false
      → any (λ i. stands_on existing i.seat) t.db.items ≡ false
      → clear_section t existing replace
        ≡ ok (if is_empty existing then t else delete_seats t existing)
  passes replace may live items = elim (Bool-cases (is_empty existing)) [
    | inl nothing ↦ rw nothing refl
    | inr seated ↦ rw (seated, live, items, replacing replace (is_empty existing) may seated) refl
  ]

-- The constraint on seats never fails: where rows of one section differ in row label or number, a section
-- without seats, or with seats to replace that neither a live ticket nor an order's item stands on, is
-- generated. Rows differ afterwards too, and the section has the seats that its parameters imply.
pub generate_seats_succeeds :
    (R : Floats) (t : Charts R.F) (layout : Layout R.F) (row_counts : List ℕ)
    (accessible : ℕ → List ℕ) (removed_ids accessible_ids : List (Text × Text)) (replace : Bool)
    → IsUnique t.seats
    → (replace || is_empty (pks (seats_of t.seats layout.section.id))) ≡ true
    → any (is_live_on (pks (seats_of t.seats layout.section.id))) t.db.tickets ≡ false
    → any (λ i. stands_on (pks (seats_of t.seats layout.section.id)) i.seat) t.db.items ≡ false
    → (t' : Charts R.F) × (generate_seats R t layout row_counts accessible removed_ids
          accessible_ids replace
        ≡ ok t')
      × IsUnique t'.seats
      × ((label number : Text)
          → count_by (same_seat layout.section.id label number) t'.seats
            ≡ count_by
                (same_seat layout.section.id label number)
                (build_seats R layout accessible removed_ids accessible_ids row_counts))
generate_seats_succeeds R t layout row_counts accessible removed accessible_ids replace u may live
      items =
    let c =
      if is_empty (existing R t layout row_counts accessible removed accessible_ids)
      then t
      else delete_seats t (existing R t layout row_counts accessible removed accessible_ids) in
    let e = passes R t layout row_counts accessible removed accessible_ids replace may live items in
    let clear = clear_section-IsClear t layout.section.id replace c u e in
    (
      saved R t layout row_counts accessible removed accessible_ids c,
      after_clear R t layout row_counts accessible removed accessible_ids replace c u e,
      stored-IsUnique R t layout row_counts accessible removed accessible_ids c clear,
      stored-count R t layout row_counts accessible removed accessible_ids c clear,
    )
