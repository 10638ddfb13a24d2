-- ===== src/Promotions/Discount.antt =====
-- The arithmetic of promotions/services.py's `compute_discount`.
use boxoffice.Common.{ℕ, ◌+◌, ◌*◌, ◌≤◌, ◌≡◌, ◌⊎◌, inl, inr, arith}
use boxoffice.Common.Int.{ℤ, pos, negsuc, pos_part, ◌≤ℤ◌, scale}
use boxoffice.Common.Rounding.{round_half_up}
use boxoffice.Promotions.{PromoCode, Kind, compute_discount}

-- A percentage of at most 100 of n cents rounds to at most n cents.
round_half_up-le : (v n : ℕ) → v ≤ 10000 → round_half_up (v * n) 10000 ≤ n
unfolding round_half_up
round_half_up-le v n h = let m : v * n ≤ 10000 * n = grind arith in omega arith

compute_discount_within :
    (promo : PromoCode) (n : ℕ)
    → (promo.kind ≡ Kind.fixed) ⊎ (promo.value ≤ 10000)
    → compute_discount promo (pos n) ≤ℤ pos n
unfolding compute_discount scale
compute_discount_within promo n (inl k) = ground arith
compute_discount_within promo n (inr v) = ground (arith, round_half_up-le promo.value n v)

pub compute_discount_nonneg : (promo : PromoCode) (s : ℤ) → pos 0 ≤ℤ compute_discount promo s
unfolding compute_discount
compute_discount_nonneg promo s = ground arith

-- A discount is never negative; on a cart of 0 or more, neither a fixed code nor a percentage of
-- at most 100 discounts more than the cart.
pub compute_discount_bounds :
    (promo : PromoCode) (subtotal : ℤ)
    → pos 0 ≤ℤ subtotal
    → (promo.kind ≡ Kind.fixed) ⊎ (promo.value ≤ 10000)
    → (pos 0 ≤ℤ compute_discount promo subtotal) × (compute_discount promo subtotal ≤ℤ subtotal)
compute_discount_bounds promo (pos n) h small =
    (compute_discount_nonneg promo (pos n), compute_discount_within promo n small)
compute_discount_bounds promo (negsuc n) h small = absurd (omega arith)

-- On a cart of `subtotal` cents a percentage code takes the nearest cent to
-- `value / 10000` of it: twice the error is at most one cent.
pub compute_discount_nearest :
    (promo : PromoCode) (subtotal : ℕ)
    → promo.kind ≡ Kind.percent
    → let d = pos_part (compute_discount promo (pos subtotal)) in
      (2 * (promo.value * subtotal) ≤ 20000 * d + 10000)
      × (20000 * d ≤ 2 * (promo.value * subtotal) + 10000)
unfolding compute_discount scale
compute_discount_nearest promo subtotal k = ground arith
