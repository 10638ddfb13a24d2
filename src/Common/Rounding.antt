-- ===== src/Common/Rounding.antt =====
-- `Decimal.quantize` with ROUND_HALF_UP (ties away from 0) and `to_integral_value` with the default
-- context's ROUND_HALF_EVEN, as roundings of a fraction n / d.
use boxoffice.Common.{ℕ, suc, ◌+◌, ◌*◌, ◌/◌, ◌%◌, ltb, if◌then◌else◌}
use boxoffice.Common.Int.{ℤ, pos, negsuc, sub_ℕ}

-- The nearest whole number to n / d, a tie going up.
unfoldable pub round_half_up : ℕ → ℕ → ℕ
round_half_up n d = (2 * n + d) / (2 * d)

-- The nearest whole number to n / d, a tie going to the even one.
unfoldable pub round_half_even : ℕ → ℕ → ℕ
round_half_even n d =
    let q = n / d in
    let twice = 2 * (n % d) in if ltb twice d then q else if ltb d twice then q + 1 else q + q % 2

abbrev pub signed : (ℕ → ℕ) → ℤ → ℤ
signed f (pos n) = pos (f n)
signed f (negsuc n) = sub_ℕ 0 (f (suc n))

unfoldable pub round_half_up_ℤ : ℤ → ℕ → ℤ
unfolding round_half_up
round_half_up_ℤ a d = signed (λ n. round_half_up n d) a

unfoldable pub round_half_even_ℤ : ℤ → ℕ → ℤ
unfolding round_half_even
round_half_even_ℤ a d = signed (λ n. round_half_even n d) a
