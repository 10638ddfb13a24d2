-- ===== src/Orders/Cart/Charge.antt =====
-- orders/services.py: what a buyer is charged once a promo code or a donation is on the hold.
use boxoffice.Promotions.{PromoCode, compute_discount}
use boxoffice.Orders.Money.{
  hold_total, hold_grand_total, hold_discount, hold_donation, ga_unit_amount,
}
use boxoffice.Orders.Cart.{with_promo, apply_promo_code}
use boxoffice.Orders.Cart.Outcome.{apply_promo_code_lem}
use boxoffice.Promotions.Discount.{compute_discount_nonneg}
use boxoffice.Common.Int.{◌<ℤ◌}
use boxoffice.Common.{ℕ, ◌≡◌, refl, subst, false, Option, arith}
use boxoffice.Common.Int.{ℤ, pos, ◌+ℤ◌, ◌-ℤ◌, ◌≤ℤ◌, ltb_ℤ, max_ℤ, +ℤ_parts, -ℤ_parts}
use boxoffice.Common.Text.{Text}
use boxoffice.Common.Results.{ok}
use boxoffice.Db.{Db, Hold}

-- What the buyer pays for a hold, with the tickets' price lowered but not to nothing.
abbrev pub IsCharged : Db → Hold → Type 0
unfolding hold_total hold_grand_total
IsCharged db hold =
    (pos 0 ≤ℤ hold_discount hold)
    × (hold_discount hold <ℤ hold_total db hold)
    × (hold_grand_total db hold ≡ hold_total db hold -ℤ hold_discount hold +ℤ hold_donation hold)
    × (hold_donation hold <ℤ hold_grand_total db hold)

left_to_charge :
    (gross discount gift : ℤ)
    → pos 0 ≤ℤ discount
    → ¬ (gross ≤ℤ discount)
    → (pos 0 ≤ℤ discount)
      × (discount <ℤ gross)
      × (max_ℤ (gross -ℤ discount) (pos 0) +ℤ gift ≡ gross -ℤ discount +ℤ gift)
      × (gift <ℤ max_ℤ (gross -ℤ discount) (pos 0) +ℤ gift)
left_to_charge gross discount gift low left =
    let positive : ltb_ℤ (gross -ℤ discount) (pos 0) ≡ false =
      ground (arith, -ℤ_parts gross discount) in
    rw positive (
      low,
      omega (arith, left),
      refl,
      ground (arith, -ℤ_parts gross discount, +ℤ_parts (gross -ℤ discount) gift),
    )

with_promo-IsCharged :
    (db : Db) (hold : Hold) (promo : PromoCode)
    → ¬ (hold_total db hold ≤ℤ compute_discount promo (hold_total db hold))
    → IsCharged db (with_promo db hold promo)
unfolding hold_total hold_grand_total ga_unit_amount
with_promo-IsCharged db hold promo left =
    left_to_charge (hold_total db hold) (compute_discount promo (hold_total db hold))
      (hold_donation hold) (compute_discount_nonneg promo (hold_total db hold)) left

-- A code that apply_promo_code accepts takes 0 or more off the tickets and leaves more than 0 to
-- charge for them: the charge is the gross less the discount, plus the gift.
pub apply_promo_code_charge :
    (db : Db) (organization session_key : ℕ) (hold_id : Option ℕ) (code : Option Text) (now : ℕ)
    {db' : Db} {hold : Hold}
    → apply_promo_code db organization session_key hold_id code now ≡ ok (db', hold)
    → IsCharged db hold
unfolding hold_total hold_grand_total
apply_promo_code_charge db organization session_key hold_id code now e =
    let (hold, promo, own, found, usable, out) =
      apply_promo_code_lem db organization session_key hold_id now code e in
    subst (λ (o : Db × Hold). IsCharged db o.1) out
      (with_promo-IsCharged db hold promo usable.leaves_a_charge)
