-- ===== src/Venues/Generation/Tickets.antt =====
-- venues/generation.py, generate_seats: no live ticket loses its seat.
use boxoffice.Common.{
  ℕ, ◌≡◌, refl, sym, ap, ◌∙◌, inl, inr, Bool, true, false, not, ◌&&◌, Option, none, some, List, [],
  ◌∷◌, ◌++◌, map, arith, Bool-cases, any, count_by, is_empty,
}
use boxoffice.Common.Text.{Text}
use boxoffice.Common.Results.{ok, ◌>>◌, raise_if, ok-injective, err-ne-ok, Result-cases}
use boxoffice.Db.{Section, Ticket, is_void}
use boxoffice.Venues.{Floats, Layout, ChartSeat}
use boxoffice.Venues.Generation.{
  GenerationError, Charts, seats_of, pks, stands_on, forget, forget_ticket, is_live_on,
  delete_seats, clear_section, number_seats, has_duplicate, bulk_create, build_seats,
  generate_seats,
}

-- The live tickets for a seat.
abbrev pub live_on : ℕ → List Ticket → ℕ
live_on k tickets = count_by (is_live_on (k ∷ [])) tickets

kept :
    (gone : List ℕ) (k : ℕ) (void : Bool) (seat : Option ℕ)
    → (not void && stands_on gone seat) ≡ false
    → (not void && stands_on (k ∷ []) (forget gone seat)) ≡ (not void && stands_on (k ∷ []) seat)
kept gone k void none e = refl
kept gone k void (some j) e = ground (arith, e)

live_on-forget :
    (gone : List ℕ) (k : ℕ) (tickets : List Ticket)
    → any (is_live_on gone) tickets ≡ false
    → live_on k (map (forget_ticket gone) tickets) ≡ live_on k tickets
live_on-forget gone k [] e = refl
live_on-forget gone k (t ∷ tickets) e =
    let rest = live_on-forget gone k tickets (ground (arith, e)) in
    let here = kept gone k (is_void t.status) t.seat (ground (arith, e)) in
    rw here (omega (arith, rest))

module _ {F : Type 0} where
  cleared_of :
      (live replace items : Bool) (t t' : Charts F)
      → (raise_if live GenerationError.live_tickets
          >> (raise_if (not replace) GenerationError.already_seated
              >> (raise_if items GenerationError.protected_error >> ok t)))
        ≡ ok t'
      → (live ≡ false) × (t ≡ t')
  cleared_of false true false t t' e = (refl, ok-injective e)
  cleared_of true replace items t t' e = absurd (err-ne-ok e)
  cleared_of false false items t t' e = absurd (err-ne-ok e)
  cleared_of false true true t t' e = absurd (err-ne-ok e)

  clear_section_tickets :
      (t : Charts F) (gone : List ℕ) (replace : Bool) (t' : Charts F) (k : ℕ)
      → clear_section t gone replace ≡ ok t'
      → live_on k t'.db.tickets ≡ live_on k t.db.tickets
  unfolding delete_seats
  clear_section_tickets t gone replace t' k e = elim (Bool-cases (is_empty gone)) [
    | inl nothing ↦
        ap (λ (c : Charts F). live_on k c.db.tickets) (sym (ok-injective (rw nothing at e)))
    | inr seated ↦
        let (dead, same) = cleared_of _ _ _ (delete_seats t gone) t' (rw seated at e) in
        ap (λ (c : Charts F). live_on k c.db.tickets) (sym same)
        ∙ live_on-forget gone k t.db.tickets dead
  ]

  bulk_create_tickets :
      (t : Charts F) (section : Section) (new : List (ChartSeat F)) (t' : Charts F)
      → bulk_create t section new ≡ ok t'
      → t'.db.tickets ≡ t.db.tickets
  unfolding bulk_create
  bulk_create_tickets t section new t' e =
      elim (Bool-cases (has_duplicate (t.seats ++ number_seats t.db.next_id new))) [
        | inl twice ↦ absurd (err-ne-ok (rw twice at e))
        | inr once ↦ ap (λ (c : Charts F). c.db.tickets) (sym (ok-injective (rw once at e)))
      ]

-- Whatever is generated, with or without leave to replace: each seat has as many live tickets afterwards as before.
pub generate_seats_keeps_tickets :
    (R : Floats) (t : Charts R.F) (layout : Layout R.F) (row_counts : List ℕ)
    (accessible : ℕ → List ℕ) (removed_ids accessible_ids : List (Text × Text)) (replace : Bool)
    (t' : Charts R.F) (k : ℕ)
    → generate_seats R t layout row_counts accessible removed_ids accessible_ids replace ≡ ok t'
    → live_on k t'.db.tickets ≡ live_on k t.db.tickets
unfolding generate_seats
generate_seats_keeps_tickets R t layout row_counts accessible removed accessible_ids replace t' k
      e =
    elim (Result-cases (clear_section t (pks (seats_of t.seats layout.section.id)) replace)) [
      | inl (failure, bad) ↦ absurd (err-ne-ok (rw bad at e))
      | inr (c, cleared) ↦
          ap (live_on k) (
            bulk_create_tickets c layout.section
              (build_seats R layout accessible removed accessible_ids row_counts) t'
              (rw cleared at e))
          ∙ clear_section_tickets t (pks (seats_of t.seats layout.section.id)) replace c k cleared
    ]
