-- ===== src/Events/Zones/OneZone.antt =====
-- events/zones.py: apply_zone with the zone that get_or_create gives it.
use boxoffice.Events.Zones.Moves.{in_zone, OneZone, moved-OneZone}
use boxoffice.Common.Keys.{Keyed-create}
use boxoffice.Common.Counting.{count_by-append, find_first-holds, All-append}
use boxoffice.Common.Updates.{only}
use boxoffice.Events.Zones.{
  ZoneTemplate, ZoneError, is_instance, new_zone, add_zone, get_or_create_zone, without, has_repeat,
  apply_zone,
}
use boxoffice.Common.{
  ℕ, ◌<◌, ◌≡◌, refl, ap, subst, ◌∙◌, inl, inr, Bool, true, some, List, [], ◌∷◌, arith, ◌==◌, ==_iff,
  ==_refl, Bool-cases, select, find_first, All, is_empty,
}
use boxoffice.Common.Int.{ℤ}
use boxoffice.Common.Results.{Result, ok, err, OnOk, OnOk-ok, Result-cases}
use boxoffice.Db.{Db, PricingZone}

-- What get_or_create leaves: the target's pk names a zone of the performance.
find_head :
    (p : PricingZone → Bool) (xs : List PricingZone) (z : PricingZone) (rest : List PricingZone)
    → select p xs ≡ z ∷ rest
    → find_first p xs ≡ some z
find_head p [] z rest e = cc
find_head p (x ∷ xs) z rest e = ground (arith, find_head p xs z rest)

in_performance :
    (performance : ℕ) (target : PricingZone) (zones : List PricingZone)
    → target.performance ≡ performance
    → All (λ z. (z.id == target.id) ≡ true → z ≡ target) zones
    → All (λ z. (z.id == target.id) ≡ true → z.performance ≡ performance) zones
in_performance performance target [] e h = tt
in_performance performance target (z ∷ zones) e h = (
  λ k. ap (λ (z : PricingZone). z.performance) (h.0 k) ∙ e,
  in_performance performance target zones e h.1,
)

not_old :
    (n performance : ℕ) (zones : List PricingZone)
    → All (λ z. z.id < n) zones
    → All (λ z. (z.id == n) ≡ true → z.performance ≡ performance) zones
not_old n performance [] h = tt
not_old n performance (z ∷ zones) h =
    (λ k. absurd (ground (arith, k, h.0, ==_iff z.id n)), not_old n performance zones h.1)

module _ (db : Db) (organization performance : ℕ) (template : ZoneTemplate) (amount : ℤ)
    (v : OneZone db) where
  -- A zone that was found, or one without seats that was created.
  abbrev Got : Result ZoneError (Db × PricingZone) → Type 0
  Got (ok (db', target)) =
      OneZone db' × All (λ z. (z.id == target.id) ≡ true → z.performance ≡ performance) db'.zones
  Got (err e) = Unit

  abbrev fresh : PricingZone
  fresh = new_zone db.next_id organization performance template amount

  created : Got (ok (add_zone db fresh, fresh))
  created = (
    record {
      keyed = Keyed-create (λ (z : PricingZone). z.id) db.next_id db.zones fresh refl v.keyed;
      once = λ p k.
          rw (count_by-append (in_zone p k) db.zones (fresh ∷ [])) (ground (arith, v.once p k));
    },
    All-append (λ z. (z.id == db.next_id) ≡ true → z.performance ≡ performance) db.zones
        (fresh ∷ []) (not_old db.next_id performance db.zones v.keyed.below) (λ _. refl, tt),
  )

  found-Got :
      (z : PricingZone)
      → select (is_instance organization performance template.id) db.zones ≡ z ∷ []
      → Got (ok (db, z))
  found-Got z e =
      let f = find_head (is_instance organization performance template.id) db.zones z [] e in
      let is = find_first-holds (is_instance organization performance template.id) db.zones z f in
      (
        v,
        in_performance performance z db.zones (ground (arith, is)) (
            only (is_instance organization performance template.id) (λ y. y.id == z.id) db.zones z f
              (==_refl z.id) (v.keyed.once z.id)),
      )

  got :
      (rows : List PricingZone)
      → select (is_instance organization performance template.id) db.zones ≡ rows
      → Got (elim rows [
        | [] ↦ ok (add_zone db fresh, fresh)
        | z ∷ [] ↦ ok (db, z)
        | z ∷ y ∷ more ↦ err ZoneError.multiple_objects
      ])
  got [] e = created
  got (z ∷ []) e = found-Got z e
  got (z ∷ y ∷ more) e = tt

  applied :
      (seat_ids : List ℕ)
      → OnOk OneZone (apply_zone db organization performance seat_ids amount template)
  unfolding apply_zone
  applied seat_ids = elim (Bool-cases (is_empty seat_ids)) [
    | inl nothing ↦ rw nothing tt
    | inr some_seats ↦
        rw some_seats
          (elim (Result-cases (get_or_create_zone db organization performance template amount)) [
            | inl (failure, e) ↦ rw e tt
            | inr ((db', target), e) ↦
                let (valid, own) =
                  subst Got e (
                    got (select (is_instance organization performance template.id) db.zones)
                      refl) in
                rw e (elim (Bool-cases (has_repeat (without target.seats seat_ids))) [
                  | inl twice ↦ rw twice tt
                  | inr once ↦
                      rw once
                        (moved-OneZone performance target seat_ids template amount db' valid own)
                ])
          ])
  ]

-- apply_zone keeps each seat of each performance in one zone at most, whatever zone it was in.
pub apply_zone-OneZone :
    (db : Db) (organization performance : ℕ) (seat_ids : List ℕ) (amount : ℤ)
    (template : ZoneTemplate) {db' : Db} {zone : PricingZone}
    → OneZone db
    → apply_zone db organization performance seat_ids amount template ≡ ok (db', zone)
    → OneZone db'
apply_zone-OneZone db organization performance seat_ids amount template v e =
    OnOk-ok OneZone _ (applied db organization performance template amount v seat_ids) e
