-- ===== src/Events/Pricing.antt =====
-- events/pricing.py: the price of a reserved seat on a performance, from a pricing zone, else from
-- the section's tier for the performance, else from the section's default tier.

pub mod Agreement
use boxoffice.Common.{
  ℕ, Bool, not, ◌&&◌, Option, none, some, List, [], ◌∷◌, map, ◌==◌, if◌then◌else◌, is_key, is_some,
  select, find_first, contains,
}
use boxoffice.Common.Int.{ℤ}
use boxoffice.Common.Text.{Text}
use boxoffice.Db.{Db, Performance, Section, Seat, PriceTier, PricingZone}

-- A dictionary keyed by pks: `m[k] = v` and `m.get(k)`.
abbrev pub Dict {ℓ} : Type ℓ → Type ℓ
Dict A = ℕ → Option A

abbrev pub empty_dict {ℓ} : {A : Type ℓ} → Dict A
empty_dict k = none

abbrev pub put {ℓ} : {A : Type ℓ} → ℕ → A → Dict A → Dict A
put k v m j = if j == k then some v else m j

abbrev pub tiers : Db → List PriceTier
tiers db = map db.tier db.tier_ids

abbrev pub is_override : Performance → Section → PriceTier → Bool
is_override performance section t =
    t.organization == performance.organization
    && is_key t.performance performance.id
    && is_key t.section section.id

abbrev pub is_default : Performance → Section → PriceTier → Bool
is_default performance section t =
    t.organization == performance.organization
    && not (is_some t.performance)
    && is_key t.section section.id

-- `none` is a PricingError.
unfoldable pub resolve_seat_tier : Db → Performance → Section → Option PriceTier
resolve_seat_tier db performance section =
    elim (find_first (is_override performance section) (tiers db)) [
      | some t ↦ some t
      | none ↦ find_first (is_default performance section) (tiers db)
    ]

unfoldable pub resolve_ga_tier : Db → Performance → Option PriceTier
resolve_ga_tier db performance =
    find_first
      (λ t.
        t.organization == performance.organization
        && is_key t.performance performance.id
        && not (is_some t.section))
      (tiers db)

pub record ResolvedPrice : Type 0 where
  pub amount : ℤ
  pub label : Text
  pub color : Option Text
  pub zone : Option ℕ
  pub tier : Option ℕ

abbrev pub zone_price : PricingZone → ResolvedPrice
zone_price z = record {
  amount = z.amount;
  label = z.name;
  color = some z.color;
  zone = some z.id;
  tier = none;
}

abbrev pub tier_price : PriceTier → ResolvedPrice
tier_price t = record {
  amount = t.amount;
  label = t.name;
  color = none;
  zone = none;
  tier = some t.id;
}

-- The zones of one performance.
abbrev pub zones_of : Db → Performance → List PricingZone
zones_of db performance =
    select (λ z. z.organization == performance.organization && z.performance == performance.id)
      db.zones

unfoldable pub resolve_seat_price : Db → Performance → Seat → Option ResolvedPrice
resolve_seat_price db performance seat =
    elim (find_first (λ z. contains seat.id z.seats) (zones_of db performance)) [
      | some z ↦ some (zone_price z)
      | none ↦ elim (resolve_seat_tier db performance seat.section) [
        | some t ↦ some (tier_price t)
        | none ↦ none
      ]
    ]

-- `for seat in zone.seats.all(): result[seat.id] = zone`
abbrev pub assign_seats : PricingZone → List ℕ → Dict PricingZone → Dict PricingZone
assign_seats z [] m = m
assign_seats z (s ∷ seats) m = assign_seats z seats (put s z m)

abbrev pub assign_zones : List PricingZone → Dict PricingZone → Dict PricingZone
assign_zones [] m = m
assign_zones (z ∷ zones) m = assign_zones zones (assign_seats z z.seats m)

unfoldable pub zones_by_seat_id : Db → Performance → Dict PricingZone
zones_by_seat_id db performance = assign_zones (zones_of db performance) empty_dict
