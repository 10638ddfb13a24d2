-- ===== src/Payments/Units.antt =====
-- payments/services.py: amounts for Stripe, _to_minor_units and application_fee_amount.
pub mod Exact
use boxoffice.Common.{
  ℕ, zero, suc, ◌+◌, ◌-◌, ◌*◌, ◌/◌, ◌%◌, ◌≤◌, ◌<◌, ◌≡◌, refl, sym, ap, subst, ◌∙◌, ◌≢◌, ◌⊎◌, inl,
  inr, ◌↔◌, Bool, true, false, not, ◌&&◌, ◌||◌, Option, none, some, List, [], ◌∷◌, ◌++◌, map, arith,
  ltb, leb, ◌==◌, if◌then◌else◌, ltb→lt, lt→ltb, leb→le, ==_iff, ==_refl, &&_split, Bool-cases,
  Option-cases, is_key, is_some, or_else, length, select, find_first, any, update_where, sum_by,
  All, contains, replicate, order_by, count_by, is_empty, insert_by,
}
use boxoffice.Common.Int.{
  ℤ, pos, negsuc, pos_part, neg_part, sub_ℕ, ◌+ℤ◌, ◌-ℤ◌, ◌≤ℤ◌, ltb_ℤ, leb_ℤ, scale, max_ℤ, min_ℤ,
  +ℤ_parts, -ℤ_parts, scale_parts, eq_of_parts, int_laws,
}
use boxoffice.Common.Text.{Text, codes, lower, text_eq, is_blank, upper, strip, text_eq_iff}
use boxoffice.Common.Results.{
  Result, ok, err, ◌>>=◌, ◌>>◌, raise_if, bind_ok, OnOk, OnOk-ok, ok-injective, err-ne-ok,
  Result-cases,
}
use boxoffice.Db.{
  Db, Organization, Performance, Section, Seat, PriceTier, PricingZone, GaAllocation, HoldSeat,
  Hold, SeatBlock, OrderStatus, Order, ItemKind, OrderItem, TicketStatus, Ticket, PaymentStatus,
  Payment, GuestAccount, is_void,
}
use boxoffice.Common.Rounding.{round_half_up, round_half_even, round_half_up_ℤ, round_half_even_ℤ}

abbrev pub text_in : Text → List Text → Bool
text_in c [] = false
text_in c (d ∷ codes) = text_eq c d || text_in c codes

abbrev pub zero_decimal_currencies : List Text
zero_decimal_currencies =
    codes "BIF"
    ∷ codes "CLP"
    ∷ codes "DJF"
    ∷ codes "GNF"
    ∷ codes "JPY"
    ∷ codes "KMF"
    ∷ codes "KRW"
    ∷ codes "MGA"
    ∷ codes "PYG"
    ∷ codes "RWF"
    ∷ codes "UGX"
    ∷ codes "VND"
    ∷ codes "VUV"
    ∷ codes "XAF"
    ∷ codes "XOF"
    ∷ codes "XPF"
    ∷ []

abbrev pub three_decimal_currencies : List Text
three_decimal_currencies = codes "BHD" ∷ codes "JOD" ∷ codes "KWD" ∷ codes "OMR" ∷ codes "TND" ∷ []

unfoldable pub is_zero_decimal : Text → Bool
is_zero_decimal currency = text_in (upper currency) zero_decimal_currencies

unfoldable pub is_three_decimal : Text → Bool
is_three_decimal currency = text_in (upper currency) three_decimal_currencies

-- `(n // 10) * 10`, rounding down.
unfoldable pub down_to_ten : ℤ → ℤ
down_to_ten (pos n) = pos (n / 10 * 10)
down_to_ten (negsuc n) = negsuc (n / 10 * 10 + 9)

-- From an amount in hundredths of the major unit.
unfoldable pub to_minor_units : ℤ → Text → ℤ
unfolding down_to_ten scale round_half_even_ℤ
to_minor_units amount currency =
    if is_zero_decimal currency
    then round_half_even_ℤ amount 100
    else if is_three_decimal currency
    then down_to_ten (round_half_even_ℤ (scale 1000 amount) 100)
    else round_half_even_ℤ (scale 100 amount) 100

-- settings.PLATFORM_FEE_PERCENT, in hundredths of a percent, and PLATFORM_FEE_FIXED_CENTS.
pub record Settings : Type 0 where
  pub platform_fee_percent : ℕ
  pub platform_fee_fixed : ℤ

-- The percentage part, from hundredths of the major unit times hundredths of a percent: a millionth
-- of the major unit.
abbrev pub percent_minor : ℤ → Text → ℤ
percent_minor millionths currency =
    if is_zero_decimal currency
    then round_half_up_ℤ millionths 1000000
    else if is_three_decimal currency
    then down_to_ten (round_half_up_ℤ (scale 1000 millionths) 1000000)
    else round_half_up_ℤ (scale 100 millionths) 1000000

unfoldable pub application_fee_amount : Settings → Organization → ℤ → Option Text → Option ℤ
unfolding down_to_ten scale round_half_up_ℤ
application_fee_amount settings organization total currency =
    let percent = or_else organization.platform_fee_percent settings.platform_fee_percent in
    let code = or_else currency organization.currency in
    let fee_minor =
      percent_minor (scale percent total) (if is_blank code then organization.currency else code)
      +ℤ settings.platform_fee_fixed in
    if leb_ℤ fee_minor (pos 0) then none else some fee_minor
