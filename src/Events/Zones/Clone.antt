-- ===== src/Events/Zones/Clone.antt =====
-- events/zones.py's clone_zones_from_performance: it copies without taking the seats out of the zones
-- that the target already has.
use boxoffice.Common.Counting.{count_by-append}
use boxoffice.Orders.Availability.{performance_seats}
use boxoffice.Events.Zones.{
  add_zone, copy_zone, copy_zones, seat_keys, clone_zones_from_performance,
}
use boxoffice.Events.Zones.Moves.{in_zone}
use boxoffice.Common.{
  ℕ, ◌+◌, ◌≡◌, refl, ◌∙◌, true, ◌&&◌, List, [], ◌∷◌, arith, ◌==◌, if◌then◌else◌, ==_iff, ==_refl,
  select, contains, count_by,
}
use boxoffice.Db.{Db, Performance, PricingZone}

contains-select :
    (k : ℕ) (keep xs : List ℕ)
    → contains k (select (λ s. contains s keep) xs) ≡ (contains k keep && contains k xs)
contains-select k keep [] = ground arith
contains-select k keep (x ∷ xs) = ground (arith, contains-select k keep xs, ==_iff k x)

module _ (organization target : ℕ) (seats : List ℕ) (k : ℕ) where
  copied :
      (db : Db) (zones : List PricingZone)
      → count_by (in_zone target k) (copy_zones db organization target seats zones).zones
        ≡ count_by (in_zone target k) db.zones
          + (if contains k seats then count_by (λ z. contains k z.seats) zones else 0)
  copied db [] = ground arith
  copied db (z ∷ zones) =
      let copy = copy_zone db.next_id organization target seats z in
      ground (
        arith,
        copied (add_zone db copy) zones,
        count_by-append (in_zone target k) db.zones (copy ∷ []),
        contains-select k seats z.seats,
        ==_refl target,
      )

-- A seat of the target's chart is, after a clone, in as many zones of the target as before and as it is
-- in zones of the source: in two, where it had one in each, whether or not the source is another
-- performance.
pub clone_zones_from_performance-in_zone :
    (db : Db) (organization : ℕ) (target : Performance) (source k : ℕ)
    → contains k (seat_keys (performance_seats db target)) ≡ true
    → count_by
        (in_zone target.id k)
        (clone_zones_from_performance db organization target source).zones
      ≡ count_by (in_zone target.id k) db.zones
        + count_by
            (λ z. contains k z.seats)
            (select (λ z. z.organization == organization && z.performance == source) db.zones)
unfolding clone_zones_from_performance
clone_zones_from_performance-in_zone db organization target source k there =
    copied organization target.id (seat_keys (performance_seats db target)) k db
      (select (λ z. z.organization == organization && z.performance == source) db.zones)
    ∙ rw there refl
