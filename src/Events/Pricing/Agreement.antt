-- ===== src/Events/Pricing/Agreement.antt =====
-- events/pricing.py and orders/services.py resolve the price of a reserved seat in two ways: one seat at
-- a time, and in bulk for a chart. They agree.
use boxoffice.Events.Pricing.{
  Dict, empty_dict, put, ResolvedPrice, zone_price, tier_price, resolve_seat_tier,
  resolve_seat_price, zones_of, assign_seats, assign_zones, zones_by_seat_id,
}
use boxoffice.Orders.Availability.{
  put_if_some, price_sections, price_tiers_by_section, seat_price, price_seats,
  resolve_reserved_prices, performance_seats, get_seating_chart,
}
use boxoffice.Common.Counting.{any_of_count, All-select}
use mathlib.Core.Path.{ap₂}
use boxoffice.Common.{
  ℕ, ◌≤◌, ◌≡◌, refl, sym, ap, ◌∙◌, ◌⊎◌, inl, inr, true, false, ◌&&◌, Option, none, some, List, [],
  ◌∷◌, arith, ◌==◌, if◌then◌else◌, ==_iff, ==_refl, Bool-cases, Option-cases, select, find_first,
  any, All, contains, count_by,
}
use boxoffice.Db.{Db, Performance, Section, Seat, PriceTier, PricingZone}

module _ {ℓ κ} {A : Type ℓ} {B : Type κ} (key : A → ℕ) (f : A → Option B) where
  -- A loop that fills a dictionary.
  abbrev fill : List A → Dict B → Dict B
  fill [] m = m
  fill (x ∷ xs) m = fill xs (put_if_some (key x) (f x) m)

  put-miss :
      (x : A) (k : ℕ) (m : Dict B) → (key x == k) ≡ false → put_if_some (key x) (f x) m k ≡ m k
  put-miss x k m e = elim (Option-cases (f x)) [
    | inl nothing ↦ rw nothing refl
    | inr (v, found) ↦ rw found (ground (arith, e, ==_iff k (key x), ==_refl k))
  ]

  put-hit :
      (x : A) (k : ℕ) (m : Dict B)
      → (key x == k) ≡ true
      → (m k ≡ none) ⊎ (m k ≡ f x)
      → put_if_some (key x) (f x) m k ≡ f x
  put-hit x k m e before = elim (Option-cases (f x)) [
    | inl nothing ↦ rw nothing (elim before [ inl h ↦ h | inr h ↦ h ∙ nothing ])
    | inr (v, found) ↦ rw found (ground (arith, e, ==_iff (key x) k, ==_refl k))
  ]

  module _ (x₀ : A) (k : ℕ) where
    abbrev Same : List A → Type ℓ
    Same = All (λ x. (key x == k) ≡ true → x ≡ x₀)

    stays : (xs : List A) (m : Dict B) → Same xs → m k ≡ f x₀ → fill xs m k ≡ f x₀
    stays [] m same h = h
    stays (x ∷ xs) m same h =
        stays xs (put_if_some (key x) (f x) m) same.1 (elim (Bool-cases (key x == k)) [
          | inr miss ↦ put-miss x k m miss ∙ h
          | inl hit ↦ put-hit x k m hit (inr (h ∙ ap f (sym (same.0 hit)))) ∙ ap f (same.0 hit)
        ])

    -- The entry of a key that one row has.
    pub fill-finds :
        (xs : List A) (m : Dict B)
        → Same xs
        → any (λ x. key x == k) xs ≡ true
        → m k ≡ none
        → fill xs m k ≡ f x₀
    fill-finds [] m same here h = absurd (cc here)
    fill-finds (x ∷ xs) m same here h = elim (Bool-cases (key x == k)) [
      | inl hit ↦
          stays xs (put_if_some (key x) (f x) m) same.1
            (put-hit x k m hit (inl h) ∙ ap f (same.0 hit))
      | inr miss ↦
          fill-finds xs (put_if_some (key x) (f x) m) same.1 (ground (arith, miss, here))
            (put-miss x k m miss ∙ h)
    ]

price_sections-fill :
    (db : Db) (performance : Performance) (sections : List Section) (m : Dict PriceTier)
    → price_sections db performance sections m
      ≡ fill (λ s. s.id) (resolve_seat_tier db performance) sections m
price_sections-fill db performance [] m = refl
price_sections-fill db performance (s ∷ sections) m =
    price_sections-fill db performance sections
      (put_if_some s.id (resolve_seat_tier db performance s) m)

price_seats-fill :
    (zones : Dict PricingZone) (tiers : Dict PriceTier) (seats : List Seat) (m : Dict ResolvedPrice)
    → price_seats zones tiers seats m ≡ fill (λ s. s.id) (seat_price zones tiers) seats m
price_seats-fill zones tiers [] m = refl
price_seats-fill zones tiers (s ∷ seats) m =
    price_seats-fill zones tiers seats (put_if_some s.id (seat_price zones tiers s) m)

-- What the loops over the zones leave for a seat.
assign_seats-lookup :
    (z : PricingZone) (seats : List ℕ) (m : Dict PricingZone) (k : ℕ)
    → assign_seats z seats m k ≡ (if contains k seats then some z else m k)
assign_seats-lookup z [] m k = refl
assign_seats-lookup z (s ∷ seats) m k = assign_seats-lookup z seats (put s z m) k ∙ ground arith

unassigned :
    (zones : List PricingZone) (m : Dict PricingZone) (k : ℕ)
    → any (λ z. contains k z.seats) zones ≡ false
    → assign_zones zones m k ≡ m k
unassigned [] m k e = refl
unassigned (z ∷ zones) m k e =
    unassigned zones (assign_seats z z.seats m) k (ground (arith, e))
    ∙ assign_seats-lookup z z.seats m k
    ∙ ground (arith, e)

-- A seat that is in one zone at most finds the same zone both ways.
assign_zones-finds :
    (zones : List PricingZone) (m : Dict PricingZone) (k : ℕ)
    → count_by (λ z. contains k z.seats) zones ≤ 1
    → m k ≡ none
    → assign_zones zones m k ≡ find_first (λ z. contains k z.seats) zones
assign_zones-finds [] m k one h = h
assign_zones-finds (z ∷ zones) m k one h = elim (Bool-cases (contains k z.seats)) [
  | inl here ↦
      unassigned zones (assign_seats z z.seats m) k
        (any_of_count (λ z. contains k z.seats) zones (ground (arith, one, here)))
      ∙ assign_seats-lookup z z.seats m k
      ∙ rw here refl
  | inr elsewhere ↦
      assign_zones-finds zones (assign_seats z z.seats m) k (ground (arith, one, elsewhere))
        (assign_seats-lookup z z.seats m k ∙ rw elsewhere h)
      ∙ rw elsewhere refl
]

-- The price that a zone and a tier leave.
abbrev price_from : Option PricingZone → Option PriceTier → Option ResolvedPrice
price_from z t = elim z [
  | some z ↦ some (zone_price z)
  | none ↦ elim t [ some t ↦ some (tier_price t) | none ↦ none ]
]

-- A seat as the tables of a performance have it: it and its section are rows of the chart, each under a
-- pk of its own, and it is in one zone of the performance at most.
pub record IsSeated (db : Db) (performance : Performance) (chart : ℕ) (seat : Seat) : Type 0 where
  pub charted : get_seating_chart db performance ≡ some chart
  pub seat_row : All (λ s. (s.id == seat.id) ≡ true → s ≡ seat) db.seats
  pub seat_there : any (λ s. s.id == seat.id) (performance_seats db performance) ≡ true
  pub section_row : All (λ s. (s.id == seat.section.id) ≡ true → s ≡ seat.section) db.sections
  pub section_there :
      any
        (λ s. s.id == seat.section.id)
        (select (λ s. s.organization == performance.organization && s.chart == chart) db.sections)
      ≡ true
  pub one_zone : count_by (λ z. contains seat.id z.seats) (zones_of db performance) ≤ 1

module _ (db : Db) (performance : Performance) (chart : ℕ) (seat : Seat)
    (h : IsSeated db performance chart seat) where
  tier_found :
      price_tiers_by_section db performance seat.section.id
      ≡ resolve_seat_tier db performance seat.section
  unfolding price_tiers_by_section
  tier_found =
      let sections =
        select (λ s. s.organization == performance.organization && s.chart == chart) db.sections in
      rw (h.charted, price_tiers_by_section)
        (ap (λ (d : Dict PriceTier). d seat.section.id)
            (price_sections-fill db performance sections empty_dict)
          ∙ fill-finds (λ (s : Section). s.id) (resolve_seat_tier db performance) seat.section
              seat.section.id sections empty_dict
              (All-select (λ s. (s.id == seat.section.id) ≡ true → s ≡ seat.section)
                (λ s. s.organization == performance.organization && s.chart == chart) db.sections
                h.section_row)
              h.section_there refl)

  zone_found :
      zones_by_seat_id db performance seat.id
      ≡ find_first (λ z. contains seat.id z.seats) (zones_of db performance)
  unfolding zones_by_seat_id
  zone_found = assign_zones-finds (zones_of db performance) empty_dict seat.id h.one_zone refl

  seats_row : All (λ s. (s.id == seat.id) ≡ true → s ≡ seat) (performance_seats db performance)
  unfolding performance_seats
  seats_row =
      rw (h.charted, performance_seats)
        (All-select (λ s. (s.id == seat.id) ≡ true → s ≡ seat)
          (λ s. s.organization == performance.organization && s.section.chart == chart) db.seats
          h.seat_row)

  both_prices :
      seat_price (zones_by_seat_id db performance) (price_tiers_by_section db performance) seat
      ≡ resolve_seat_price db performance seat
  unfolding resolve_seat_price
  both_prices = ap₂ price_from zone_found tier_found

  -- The bulk resolution that a hold charges gives each seat of the chart that is in one
  -- zone at most the price, or the lack of one, that the resolution of the single seat gives.
  pub resolve_reserved_prices-resolve_seat_price :
      resolve_reserved_prices db performance seat.id ≡ resolve_seat_price db performance seat
  unfolding resolve_reserved_prices
  resolve_reserved_prices-resolve_seat_price =
      ap (λ (d : Dict ResolvedPrice). d seat.id)
        (price_seats-fill (zones_by_seat_id db performance) (price_tiers_by_section db performance)
          (performance_seats db performance) empty_dict)
      ∙ fill-finds (λ (s : Seat). s.id)
          (seat_price (zones_by_seat_id db performance) (price_tiers_by_section db performance))
          seat seat.id (performance_seats db performance) empty_dict seats_row h.seat_there refl
      ∙ both_prices
