-- ===== src/Promotions.antt =====
-- Promo codes: promotions/models.py and promotions/services.py. Amounts are integers in cents, a
-- percentage is in hundredths of a percent, an instant is a number of seconds.

pub mod Discount
pub mod Validation
pub mod Lookup
use boxoffice.Common.{
  ℕ, zero, suc, ◌+◌, ◌-◌, ◌*◌, ◌/◌, ◌%◌, ◌≤◌, ◌<◌, ◌≡◌, refl, sym, ap, subst, ◌∙◌, ◌≢◌, ◌⊎◌, inl,
  inr, ◌↔◌, Bool, true, false, not, ◌&&◌, ◌||◌, Option, none, some, List, [], ◌∷◌, ◌++◌, map, arith,
  ltb, leb, ◌==◌, if◌then◌else◌, ltb→lt, lt→ltb, leb→le, ==_iff, ==_refl, &&_split, Bool-cases,
  Option-cases, is_key, is_some, or_else, length, select, find_first, any, update_where, sum_by,
  All, contains, replicate,
}
use boxoffice.Common.Int.{
  ℤ, pos, negsuc, pos_part, neg_part, sub_ℕ, ◌+ℤ◌, ◌-ℤ◌, ◌≤ℤ◌, ltb_ℤ, leb_ℤ, scale, max_ℤ, min_ℤ,
  +ℤ_parts, -ℤ_parts, scale_parts, eq_of_parts, int_laws,
}
use boxoffice.Common.Text.{Text, codes, text_eq, is_blank, upper, strip, text_eq_iff}
use boxoffice.Common.Results.{Result, ok, err, ◌>>=◌, ◌>>◌, raise_if, bind_ok}
use boxoffice.Common.Rounding.{round_half_up_ℤ}

pub data Kind : Type 0 where
  percent fixed : Kind

abbrev pub is_percent : Kind → Bool
is_percent Kind.percent = true
is_percent Kind.fixed = false

pub record PromoCode : Type 0 where
  pub id : ℕ
  pub organization : ℕ
  pub code : Text
  pub kind : Kind
  -- Hundredths: of a percent, or of a currency unit. The database keeps it from being negative.
  pub value : ℕ
  pub currency : Text
  pub starts_at : Option ℕ
  pub ends_at : Option ℕ
  pub max_redemptions : Option ℕ
  pub redemption_count : ℕ
  pub min_order_amount : Option ℤ
  pub is_active : Bool

-- The buyer-safe messages, one for each `raise PromoError`.
pub data PromoError : Type 0 where
  selection_expired not_valid not_active_yet expired limit_reached : PromoError
  below_minimum : ℤ → Text → PromoError
  wrong_currency cannot_apply : PromoError

abbrev pub normalize : Option Text → Text
normalize code = upper (strip (or_else code []))

-- `PromoCode.save`
unfoldable pub save : PromoCode → PromoCode
save promo = record promo { code = normalize (some promo.code) }

unfoldable pub get_usable_code : ℕ → Option Text → List PromoCode → Option PromoCode
get_usable_code organization code promos =
    let normalized = normalize code in
    if is_blank normalized
    then none
    else find_first (λ p. p.organization == organization && text_eq p.code normalized) promos

unfoldable pub compute_discount : PromoCode → ℤ → ℤ
unfolding round_half_up_ℤ
compute_discount promo subtotal =
    let discount =
      if is_percent promo.kind
      then round_half_up_ℤ (scale promo.value subtotal) 10000
      else min_ℤ (pos promo.value) subtotal in
    if ltb_ℤ discount (pos 0) then pos 0 else discount

-- `bound is not None and test(bound)`
abbrev pub if_set {ℓ} : {A : Type ℓ} → Option A → (A → Bool) → Bool
if_set none test = false
if_set (some a) test = test a

abbrev minimum : Option ℤ → ℤ
minimum m = or_else m (pos 0)

unfoldable pub validate_code : PromoCode → ℤ → Text → ℕ → Result PromoError (Unit {0})
validate_code promo subtotal currency now = do
  raise_if (not promo.is_active) PromoError.not_valid
  raise_if (if_set promo.starts_at (λ t. ltb now t)) PromoError.not_active_yet
  raise_if (if_set promo.ends_at (λ t. ltb t now)) PromoError.expired
  raise_if (if_set promo.max_redemptions (λ m. leb m promo.redemption_count))
      PromoError.limit_reached
  raise_if (if_set promo.min_order_amount (λ m. ltb_ℤ subtotal m))
      (PromoError.below_minimum (minimum promo.min_order_amount) (upper currency))
  raise_if
      (not (is_percent promo.kind)
        && not (is_blank promo.currency)
        && not (text_eq (upper promo.currency) (upper currency)))
      PromoError.wrong_currency
  raise_if (leb_ℤ subtotal (compute_discount promo subtotal)) PromoError.cannot_apply

unfoldable pub record_redemption : ℕ → List PromoCode → List PromoCode
record_redemption promo_id =
    update_where (λ p. p.id == promo_id)
      (λ p. record p { redemption_count = p.redemption_count + 1 })
