-- ===== src/Payments/Units/Exact.antt =====
-- Where payments/services.py's conversion to minor units is exact, and where it is not.
use boxoffice.Common.{ℕ, ◌+◌, ◌*◌, ◌≡◌, true, false, arith, if◌then◌else◌}
use boxoffice.Common.Int.{ℤ, pos, negsuc, ◌+ℤ◌, scale}
use boxoffice.Common.Text.{Text}
use boxoffice.Common.Rounding.{round_half_even_ℤ}
use boxoffice.Payments.Units.{is_zero_decimal, is_three_decimal, to_minor_units}

-- The smallest unit of the currency, in hundredths of the major unit, is 1 or a tenth.
abbrev pub per_hundredth : Text → ℕ
per_hundredth currency = if is_three_decimal currency then 10 else 1

-- Outside the zero-decimal currencies the conversion loses nothing: an amount of a hundredths is a
-- minor units, or ten times as many in a three-decimal currency.
pub to_minor_units_exact :
    (amount : ℤ) (currency : Text)
    → is_zero_decimal currency ≡ false
    → to_minor_units amount currency ≡ scale (per_hundredth currency) amount
unfolding to_minor_units round_half_even_ℤ
to_minor_units_exact (pos n) currency major = ground arith
to_minor_units_exact (negsuc n) currency major = ground arith

-- In a zero-decimal currency a price of 2n + 1/2 rounds down to 2n, while two of them come to 4n + 1:
-- rounding each line of a cart is not rounding their sum.
pub zero_decimal_drift :
    (n : ℕ) (currency : Text)
    → is_zero_decimal currency ≡ true
    → let price = pos (200 * n + 50) in
      to_minor_units (price +ℤ price) currency
      ≡ to_minor_units price currency +ℤ to_minor_units price currency +ℤ pos 1
unfolding to_minor_units round_half_even_ℤ ◌+ℤ◌
zero_decimal_drift n currency zero_decimal = ground arith
