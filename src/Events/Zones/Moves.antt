-- ===== src/Events/Zones/Moves.antt =====
-- events/zones.py: what apply_zone writes on the zones of a performance, and "a seat belongs to at most one
-- zone per performance" over it.
use boxoffice.Common.Keys.{Keyed}
use boxoffice.Common.Counting.{count_by-le}
use boxoffice.Events.Zones.{ZoneTemplate, without, move_seats}
use boxoffice.Common.{
  ℕ, ◌≤◌, ◌<◌, ◌≡◌, refl, sym, subst, inl, inr, Bool, true, false, not, ◌&&◌, ◌||◌, List, [], ◌∷◌,
  ◌++◌, map, arith, ◌==◌, ==_iff, Bool-cases, All, contains, count_by,
}
use boxoffice.Common.Int.{ℤ}
use boxoffice.Db.{Db, PricingZone}

abbrev pub in_zone : ℕ → ℕ → PricingZone → Bool
in_zone performance seat z = z.performance == performance && contains seat z.seats

-- Each zone has a pk of its own, and a seat of a performance is in one zone at most.
pub record OneZone (db : Db) : Type 0 where
  pub keyed : Keyed (λ (z : PricingZone). z.id) db.next_id db.zones
  pub once : (p k : ℕ) → count_by (in_zone p k) db.zones ≤ 1

count_by-map :
    (p : PricingZone → Bool) (f : PricingZone → PricingZone) (xs : List PricingZone)
    → count_by p (map f xs) ≡ count_by (λ z. p (f z)) xs
count_by-map p f [] = refl
count_by-map p f (x ∷ xs) = omega (arith, count_by-map p f xs)

contains-append :
    (k : ℕ) (xs ys : List ℕ) → contains k (xs ++ ys) ≡ (contains k xs || contains k ys)
contains-append k [] ys = refl
contains-append k (x ∷ xs) ys = ground (arith, contains-append k xs ys)

contains-without :
    (k : ℕ) (gone xs : List ℕ)
    → contains k (without gone xs) ≡ (contains k xs && not (contains k gone))
contains-without k gone [] = refl
contains-without k gone (x ∷ xs) = ground (arith, contains-without k gone xs, ==_iff k x)

module _ (performance : ℕ) (target : PricingZone) (seat_ids : List ℕ) (template : ZoneTemplate)
    (amount : ℤ) where
  abbrev moved : PricingZone → PricingZone
  moved = move_seats performance target seat_ids template amount

  -- A seat that is not moved is where it was.
  unmoved :
      (p k : ℕ) (zones : List PricingZone)
      → contains k seat_ids ≡ false
      → All (λ z. in_zone p k (moved z) ≡ true → in_zone p k z ≡ true) zones
  unmoved p k [] h = tt
  unmoved p k (z ∷ zones) h = (
    λ e. ground (
      arith,
      h,
      e,
      contains-append k z.seats (without target.seats seat_ids),
      contains-without k target.seats seat_ids,
      contains-without k seat_ids z.seats,
    ),
    unmoved p k zones h,
  )

  -- Another performance's seats are where they were.
  elsewhere :
      (p k : ℕ) (zones : List PricingZone)
      → (p == performance) ≡ false
      → All (λ z. (z.id == target.id) ≡ true → z.performance ≡ performance) zones
      → All (λ z. in_zone p k (moved z) ≡ true → in_zone p k z ≡ true) zones
  elsewhere p k [] h own = tt
  elsewhere p k (z ∷ zones) h own =
      (λ e. ground (arith, h, e, own.0, ==_iff p performance), elsewhere p k zones h own.1)

  -- A seat that is moved is in the target only.
  in_target :
      (k : ℕ) (zones : List PricingZone)
      → contains k seat_ids ≡ true
      → All (λ z. in_zone performance k (moved z) ≡ true → (z.id == target.id) ≡ true) zones
  in_target k [] h = tt
  in_target k (z ∷ zones) h =
      (λ e. ground (arith, h, e, contains-without k seat_ids z.seats), in_target k zones h)

  moved-once :
      (db : Db)
      → OneZone db
      → All (λ z. (z.id == target.id) ≡ true → z.performance ≡ performance) db.zones
      → (p k : ℕ) → count_by (in_zone p k) (map moved db.zones) ≤ 1
  moved-once db v own p k =
      rw (count_by-map (in_zone p k) moved db.zones) (elim (Bool-cases (contains k seat_ids)) [
        | inr stays ↦ omega (
          arith,
          v.once p k,
          count_by-le (λ z. in_zone p k (moved z)) (in_zone p k) db.zones
              (unmoved p k db.zones stays),
        )
        | inl moves ↦ elim (Bool-cases (p == performance)) [
          | inr other ↦ omega (
            arith,
            v.once p k,
            count_by-le (λ z. in_zone p k (moved z)) (in_zone p k) db.zones
                (elsewhere p k db.zones other own),
          )
          | inl here ↦ omega (
            arith,
            v.keyed.once target.id,
            count_by-le (λ z. in_zone p k (moved z)) (λ z. z.id == target.id) db.zones
                (subst
                  (λ p.
                    All (λ z. in_zone p k (moved z) ≡ true → (z.id == target.id) ≡ true) db.zones)
                  (sym ((==_iff p performance).0 here)) (in_target k db.zones moves)),
          )
        ]
      ])

  same_key : (z : PricingZone) → (moved z).id ≡ z.id
  same_key z = ground arith

  same_keys :
      (k : ℕ) (zones : List PricingZone)
      → All (λ z. ((moved z).id == k) ≡ true → (z.id == k) ≡ true) zones
  same_keys k [] = tt
  same_keys k (z ∷ zones) = (λ e. ground (arith, e, same_key z), same_keys k zones)

  still_below :
      (n : ℕ) (zones : List PricingZone)
      → All (λ z. z.id < n) zones
      → All (λ z. z.id < n) (map moved zones)
  still_below n [] h = tt
  still_below n (z ∷ zones) h = (omega (arith, h.0, same_key z), still_below n zones h.1)

  pub moved-OneZone :
      (db : Db)
      → OneZone db
      → All (λ z. (z.id == target.id) ≡ true → z.performance ≡ performance) db.zones
      → OneZone (record db { zones = map moved db.zones })
  moved-OneZone db v own = record {
    keyed = record {
      once = λ k. rw (count_by-map (λ z. z.id == k) moved db.zones) (
          omega (
            arith,
            v.keyed.once k,
            count_by-le (λ z. (moved z).id == k) (λ z. z.id == k) db.zones (same_keys k db.zones),
          ));
      below = still_below db.next_id db.zones v.keyed.below;
    };
    once = moved-once db v own;
  }
