-- ===== src/Orders/Money.antt =====
-- orders/services.py: what a hold costs. hold_total is the gross of the tickets, hold_grand_total
-- what is charged.
use boxoffice.Common.{
  ℕ, ◌+◌, ◌&&◌, Option, none, some, List, [], ◌∷◌, ◌==◌, if◌then◌else◌, is_key, or_else, length,
  select, sum_by,
}
use boxoffice.Common.Int.{ℤ, pos, ◌+ℤ◌, ◌-ℤ◌, scale, max_ℤ}
use boxoffice.Common.Text.{Text}
use boxoffice.Db.{Db, HoldSeat, Hold}
use boxoffice.Orders.Availability.{is_active}

-- `hold.price_tier_id and hold.quantity`: a general-admission hold of at least one place, with its
-- tier and quantity.
abbrev pub ga_parts : Hold → Option (ℕ × ℕ)
ga_parts hold = elim hold.price_tier [
  | none ↦ none
  | some tier ↦ elim hold.quantity [
    | none ↦ none
    | some q ↦ if q == 0 then none else some (tier, q)
  ]
]

-- The snapshot, else the live amount of the hold's tier.
unfoldable pub ga_unit_amount : Db → Hold → ℕ → ℤ
ga_unit_amount db hold tier = or_else hold.ga_unit_amount (db.tier tier).amount

abbrev pub sum_seats : List HoldSeat → ℤ
sum_seats [] = pos 0
sum_seats (hs ∷ rest) = hs.unit_amount +ℤ sum_seats rest

unfoldable pub hold_total : Db → Hold → ℤ
hold_total db hold = elim (ga_parts hold) [
  | some (tier, q) ↦ scale q (ga_unit_amount db hold tier)
  | none ↦ sum_seats hold.hold_seats
]

abbrev first_seat_currency : Db → Text → List HoldSeat → Text
first_seat_currency db own [] = own
first_seat_currency db own (hs ∷ rest) = elim hs.price_tier [
  | some tier ↦ (db.tier tier).currency
  | none ↦ own
]

unfoldable pub hold_currency : Db → Hold → Text
hold_currency db hold = elim hold.price_tier [
  | some tier ↦ (db.tier tier).currency
  | none ↦ first_seat_currency db (db.organization hold.organization).currency hold.hold_seats
]

abbrev pub hold_discount : Hold → ℤ
hold_discount hold = or_else hold.discount_amount (pos 0)

abbrev pub hold_donation : Hold → ℤ
hold_donation hold = or_else hold.donation_amount (pos 0)

unfoldable pub hold_grand_total : Db → Hold → ℤ
hold_grand_total db hold =
    max_ℤ (hold_total db hold -ℤ hold_discount hold) (pos 0) +ℤ hold_donation hold

-- `cart_item_count`; a session without a key has nothing.
unfoldable pub cart_item_count : Db → ℕ → Option ℕ → ℕ → ℕ
cart_item_count db organization session_key now =
    let holds =
      select
        (λ h. h.organization == organization && is_key session_key h.session_key && is_active now h)
        db.holds in
    sum_by (λ h. or_else h.quantity 0) holds + sum_by (λ h. length h.hold_seats) holds
