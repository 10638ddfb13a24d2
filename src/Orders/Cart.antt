-- ===== src/Orders/Cart.antt =====
-- orders/services.py: a promo code or a donation put on a hold and taken off it.

pub mod Outcome
pub mod Charge
use boxoffice.Common.{ℕ, Bool, ◌&&◌, Option, none, some, [], ◌==◌, is_key, find_first, update_where}
use boxoffice.Common.Int.{ℤ, pos, ltb_ℤ, leb_ℤ}
use boxoffice.Common.Text.{Text}
use boxoffice.Common.Results.{Result, ok, err, ◌>>=◌, ◌>>◌, raise_if}
use boxoffice.Db.{Db, Hold}
use boxoffice.Promotions.{PromoCode, PromoError, get_usable_code, validate_code, compute_discount}
use boxoffice.Orders.Availability.{is_active}
use boxoffice.Orders.Money.{hold_total, hold_currency}
use boxoffice.Orders.Holds.{HoldError}

-- `hold_id` after `int(...)`: none where it does not parse.
abbrev pub is_own_hold : ℕ → ℕ → Option ℕ → Hold → Bool
is_own_hold organization session_key hold_id h =
    h.organization == organization && h.session_key == session_key && is_key hold_id h.id

abbrev pub own_active_hold : Db → ℕ → ℕ → Option ℕ → ℕ → Option Hold
own_active_hold db organization session_key hold_id now =
    find_first (λ h. is_own_hold organization session_key hold_id h && is_active now h) db.holds

-- `hold.save(...)`
abbrev pub save_hold : Db → Hold → Db
save_hold db hold = record db { holds = update_where (λ h. h.id == hold.id) (λ _. hold) db.holds }

abbrev pub with_promo : Db → Hold → PromoCode → Hold
with_promo db hold promo = record hold {
  promo_code = some promo.id;
  promo_code_text = promo.code;
  discount_amount = some (compute_discount promo (hold_total db hold));
}

abbrev pub or_raise {ℓ κ} : {E : Type κ} {A : Type ℓ} → Option A → E → Result E A
or_raise none e = err e
or_raise (some a) e = ok a

unfoldable pub apply_promo_code :
    Db → ℕ → ℕ → Option ℕ → Option Text → ℕ → Result PromoError (Db × Hold)
apply_promo_code db organization session_key hold_id code now = do
  hold ←
      or_raise (own_active_hold db organization session_key hold_id now)
        PromoError.selection_expired
  promo ← or_raise (get_usable_code organization code db.promos) PromoError.not_valid
  validate_code promo (hold_total db hold) (hold_currency db hold) now
  ok (save_hold db (with_promo db hold promo), with_promo db hold promo)

abbrev pub without_promo : Hold → Hold
without_promo h = record h { promo_code = none; promo_code_text = []; discount_amount = none }

unfoldable pub remove_promo_code : Db → ℕ → ℕ → Option ℕ → Db
remove_promo_code db organization session_key hold_id =
    elim (find_first (is_own_hold organization session_key hold_id) db.holds) [
      | none ↦ db
      | some hold ↦ save_hold db (without_promo hold)
    ]

-- 10000 currency units, in cents.
abbrev pub max_hold_donation : ℕ
max_hold_donation = 1000000

abbrev pub with_donation : Hold → ℤ → Option ℕ → Hold
with_donation hold amount campaign = record hold {
  donation_amount = some amount;
  donation_campaign = campaign;
}

-- `amount` after `Decimal(str(amount)).quantize(...)`: none where that raises.
unfoldable pub set_hold_donation :
    Db → ℕ → ℕ → Option ℕ → Option ℤ → Option ℕ → ℕ → Result HoldError (Db × Hold)
set_hold_donation db organization session_key hold_id amount campaign now = do
  hold ←
      or_raise (own_active_hold db organization session_key hold_id now) HoldError.selection_expired
  gift ← or_raise amount HoldError.invalid_donation
  raise_if (leb_ℤ gift (pos 0)) HoldError.donation_not_positive
  raise_if (ltb_ℤ (pos max_hold_donation) gift) HoldError.donation_over_cap
  ok (save_hold db (with_donation hold gift campaign), with_donation hold gift campaign)

abbrev pub without_donation : Hold → Hold
without_donation h = record h { donation_amount = none; donation_campaign = none }

unfoldable pub clear_hold_donation : Db → ℕ → ℕ → Option ℕ → Db
clear_hold_donation db organization session_key hold_id =
    elim (find_first (is_own_hold organization session_key hold_id) db.holds) [
      | none ↦ db
      | some hold ↦ save_hold db (without_donation hold)
    ]
