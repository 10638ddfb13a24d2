-- ===== src/Venues/Generation/Move.antt =====
-- venues/generation.py, reposition_seats: the drawing of generate_seats on the rows that are there.
use boxoffice.Common.{
  ℕ, ◌≤◌, ◌≡◌, refl, sym, ap, subst, ◌∙◌, inl, inr, Bool, true, false, not, ◌&&◌, List, [], ◌∷◌,
  arith, ==_iff, if◌then◌else◌, Bool-cases, any, count_by, All, update_where,
}
use boxoffice.Common.Text.{Text, text_eq_iff}
use boxoffice.Common.Pairs.{Pairs, Pairs-update, Pairs-same, Pairs-trans, All-imp}
use boxoffice.Common.Results.{ok, ok-injective, err-ne-ok}
use boxoffice.Venues.{Floats, Layout, ChartSeat}
use boxoffice.Venues.Generation.{
  Charts, same_identity, same_seat, seats_of, same_roster, move_to, move_all, build_seats,
  reposition_seats,
}
use boxoffice.Venues.Generation.Roster.{build_seats-Own, build_seats_once}

-- A row that keeps its pk and its identity.
pub record Stays {F : Type 0} (s s' : ChartSeat F) : Type 0 where
  pub id : s'.id ≡ s.id
  pub organization : s'.organization ≡ s.organization
  pub section : s'.section ≡ s.section
  pub row_label : s'.row_label ≡ s.row_label
  pub number : s'.number ≡ s.number

-- A row that is drawn as `p` is, if it has the identity of `p`.
abbrev pub DrawnAs : {F : Type 0} → ℕ → ChartSeat F → ChartSeat F → Type 0
DrawnAs section p s =
    same_seat section p.row_label p.number s ≡ true
    → (s.x ≡ p.x) × (s.y ≡ p.y) × (s.is_accessible ≡ p.is_accessible)

module _ (R : Floats) (section : ℕ) where
  -- Rows to draw that differ in identity.
  abbrev Differ : List (ChartSeat R.F) → Type 0
  Differ [] = Unit
  Differ (p ∷ ps) = All (λ q. same_identity p q ≡ false) ps × Differ ps

  moved-Stays :
      (p s : ChartSeat R.F)
      → Stays s (if same_seat section p.row_label p.number s then move_to R p s else s)
  moved-Stays p s = elim (Bool-cases (same_seat section p.row_label p.number s)) [
    | inl hit ↦
        rw hit (record {
          id = refl;
          organization = refl;
          section = refl;
          row_label = refl;
          number = refl;
        })
    | inr miss ↦
        rw miss (record {
          id = refl;
          organization = refl;
          section = refl;
          row_label = refl;
          number = refl;
        })
  ]

  move_all-Stays :
      (ps seats : List (ChartSeat R.F)) → Pairs Stays seats (move_all R section ps seats)
  move_all-Stays [] seats = Pairs-same Stays seats (λ s. record {
    id = refl;
    organization = refl;
    section = refl;
    row_label = refl;
    number = refl;
  })
  move_all-Stays (p ∷ ps) seats =
      Pairs-trans Stays Stays Stays seats
        (update_where (same_seat section p.row_label p.number) (move_to R p) seats) _
        (λ x y z a b. record {
          id = b.id ∙ a.id;
          organization = b.organization ∙ a.organization;
          section = b.section ∙ a.section;
          row_label = b.row_label ∙ a.row_label;
          number = b.number ∙ a.number;
        })
        (Pairs-update Stays (same_seat section p.row_label p.number) (move_to R p) seats
          (moved-Stays p))
        (move_all-Stays ps
          (update_where (same_seat section p.row_label p.number) (move_to R p) seats))

  drawn_here :
      (p : ChartSeat R.F) (seats : List (ChartSeat R.F))
      → All
          (DrawnAs section p)
          (update_where (same_seat section p.row_label p.number) (move_to R p) seats)
  drawn_here p [] = tt
  drawn_here p (s ∷ seats) = elim (Bool-cases (same_seat section p.row_label p.number s)) [
    | inl hit ↦ rw hit (λ _. (refl, refl, refl), drawn_here p seats)
    | inr miss ↦ rw miss (λ e. absurd (cc (miss, e)), drawn_here p seats)
  ]

  -- One seat is not of two identities.
  not_both :
      (p q s : ChartSeat R.F)
      → same_identity p q ≡ false
      → same_seat section p.row_label p.number s ≡ true
      → same_seat section q.row_label q.number s ≡ true
      → ⊥
  not_both p q s differ a b = ground (
    arith,
    differ,
    a,
    b,
    text_eq_iff s.row_label p.row_label,
    text_eq_iff s.number p.number,
    text_eq_iff s.row_label q.row_label,
    text_eq_iff s.number q.number,
    text_eq_iff p.row_label q.row_label,
    text_eq_iff p.number q.number,
  )

  still_drawn :
      (p q : ChartSeat R.F) (seats : List (ChartSeat R.F))
      → same_identity p q ≡ false
      → All (DrawnAs section p) seats
      → All
          (DrawnAs section p)
          (update_where (same_seat section q.row_label q.number) (move_to R q) seats)
  still_drawn p q [] differ a = tt
  still_drawn p q (s ∷ seats) differ a =
      elim (Bool-cases (same_seat section q.row_label q.number s)) [
        | inl hit ↦
            rw hit (λ e. absurd (not_both p q s differ e hit), still_drawn p q seats differ a.1)
        | inr miss ↦ rw miss (a.0, still_drawn p q seats differ a.1)
      ]

  untouched :
      (p : ChartSeat R.F) (ps seats : List (ChartSeat R.F))
      → All (λ q. same_identity p q ≡ false) ps
      → All (DrawnAs section p) seats
      → All (DrawnAs section p) (move_all R section ps seats)
  untouched p [] seats d a = a
  untouched p (q ∷ ps) seats d a =
      untouched p ps (update_where (same_seat section q.row_label q.number) (move_to R q) seats) d.1
        (still_drawn p q seats d.0 a)

  all_drawn :
      (ps seats : List (ChartSeat R.F))
      → Differ ps
      → All (λ p. All (DrawnAs section p) (move_all R section ps seats)) ps
  all_drawn [] seats d = tt
  all_drawn (p ∷ ps) seats d =
      let seats' = update_where (same_seat section p.row_label p.number) (move_to R p) seats in
      (untouched p ps seats' d.0 (drawn_here p seats), all_drawn ps seats' d.1)

  none_again :
      (p : ChartSeat R.F) (ps : List (ChartSeat R.F))
      → All (λ s. s.section ≡ section) ps
      → count_by (same_seat section p.row_label p.number) ps ≡ 0
      → All (λ q. same_identity p q ≡ false) ps
  none_again p [] own e = tt
  none_again p (q ∷ ps) own e = (
    ground (
      arith,
      e,
      own.0,
      ==_iff q.section section,
      text_eq_iff p.row_label q.row_label,
      text_eq_iff q.row_label p.row_label,
      text_eq_iff p.number q.number,
      text_eq_iff q.number p.number,
    ),
    none_again p ps own.1 (omega (arith, e)),
  )

  self : (p : ChartSeat R.F) → p.section ≡ section → same_seat section p.row_label p.number p ≡ true
  self p e =
      rw
        (
          (==_iff p.section section).1 e,
          (text_eq_iff p.row_label p.row_label).1 refl,
          (text_eq_iff p.number p.number).1 refl,
        )
        refl

  Differ-once :
      (ps : List (ChartSeat R.F))
      → All (λ s. s.section ≡ section) ps
      → ((label number : Text) → count_by (same_seat section label number) ps ≤ 1)
      → Differ ps
  Differ-once [] own once = tt
  Differ-once (p ∷ ps) own once = (
    none_again p ps own.1 (omega (arith, rw (self p own.0) at (once p.row_label p.number))),
    Differ-once ps own.1 (λ a n. omega (arith, once a n)),
  )

  -- A row of the section with an identity.
  any-seats_of :
      (p : ChartSeat R.F) (seats : List (ChartSeat R.F))
      → any (same_identity p) (seats_of seats section) ≡ true
      → any (same_seat section p.row_label p.number) seats ≡ true
  any-seats_of p [] e = cc
  any-seats_of p (s ∷ seats) e = ground (
    arith,
    e,
    text_eq_iff p.row_label s.row_label,
    text_eq_iff s.row_label p.row_label,
    text_eq_iff p.number s.number,
    text_eq_iff s.number p.number,
    any-seats_of p seats,
  )

  all_of_none :
      (r : ChartSeat R.F → Bool) (ps : List (ChartSeat R.F))
      → any (λ p. not (r p)) ps ≡ false
      → All (λ p. r p ≡ true) ps
  all_of_none r [] e = tt
  all_of_none r (p ∷ ps) e = (ground (arith, e), all_of_none r ps (ground (arith, e)))

both_parts : (a b : Bool) → not (not a && not b) ≡ false → (a ≡ false) × (b ≡ false)
both_parts a b e = (ground (arith, e), ground (arith, e))

-- A move in place is the drawing of generate_seats on the old rows: each row keeps its pk and identity, and
-- nothing else of the tables changes; each seat that the parameters imply has a row, and every row of its
-- section and identity is drawn as generate_seats would draw it; and the section has no other rows.
pub reposition_seats_lem :
    (R : Floats) (t : Charts R.F) (layout : Layout R.F) (row_counts : List ℕ)
    (removed_ids accessible_ids : List (Text × Text)) (t' : Charts R.F)
    → reposition_seats R t layout row_counts removed_ids accessible_ids ≡ ok t'
    → (t'.db ≡ t.db)
      × Pairs Stays t.seats t'.seats
      × All
          (λ p. any (same_seat layout.section.id p.row_label p.number) t.seats ≡ true)
          (build_seats R layout (λ _. []) removed_ids accessible_ids row_counts)
      × All
          (λ p. All (DrawnAs layout.section.id p) t'.seats)
          (build_seats R layout (λ _. []) removed_ids accessible_ids row_counts)
      × All
          (λ s.
            any
              (same_identity s)
              (build_seats R layout (λ _. []) removed_ids accessible_ids row_counts)
            ≡ true)
          (seats_of t.seats layout.section.id)
unfolding reposition_seats
reposition_seats_lem R t layout row_counts removed accessible_ids t' e =
    let k = layout.section.id in
    let ps = build_seats R layout (λ _. []) removed accessible_ids row_counts in
    elim (Bool-cases (not (same_roster R ps (seats_of t.seats k)))) [
      | inl changed ↦ absurd (err-ne-ok (rw changed at e))
      | inr same ↦
          let moved : record t { seats = move_all R k ps t.seats } ≡ t' =
            ok-injective (rw same at e) in
          let (there, no_more) = both_parts _ _ same in
          (
            ap (λ (c : Charts R.F). c.db) (sym moved),
            subst (λ (c : Charts R.F). Pairs Stays t.seats c.seats) moved
                (move_all-Stays R k ps t.seats),
            All-imp _ _ ps (λ p h. any-seats_of R k p t.seats h)
                (all_of_none R k (λ p. any (same_identity p) (seats_of t.seats k)) ps there),
            subst (λ (c : Charts R.F). All (λ p. All (DrawnAs k p) c.seats) ps) moved
                (all_drawn R k ps t.seats (
                  Differ-once R k ps
                    (build_seats-Own R layout (λ _. []) removed accessible_ids row_counts)
                    (λ a n.
                      build_seats_once R layout (λ _. []) removed accessible_ids k a n
                        row_counts))),
            all_of_none R k (λ s. any (same_identity s) ps) (seats_of t.seats k) no_more,
          )
    ]
