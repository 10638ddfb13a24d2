-- ===== src/Tests/Promotions.antt =====
-- Runs of the model, and the theorems at those inputs: the arithmetic of promo codes and of the amounts for Stripe.
use boxoffice.Common.{◌+◌, ◌*◌, ◌≤◌, ◌≡◌, refl, ◌≢◌, inl, inr, ◌↔◌, some, [], ◌∷◌, arith}
use boxoffice.Common.Int.{pos, negsuc, pos_part, ◌+ℤ◌, ◌-ℤ◌, ◌≤ℤ◌, scale}
use boxoffice.Common.Text.{codes}
use boxoffice.Common.Results.{ok}
use boxoffice.Db.{Hold}
use boxoffice.Promotions.{compute_discount, validate_code, get_usable_code, normalize}
use boxoffice.Promotions.Discount.{compute_discount_bounds, compute_discount_nearest}
use boxoffice.Promotions.Validation.{IsUsable, validate_code_iff}
use boxoffice.Promotions.Lookup.{get_usable_code_scoped}
use boxoffice.Orders.Money.{hold_grand_total, hold_total}
use boxoffice.Payments.Units.{to_minor_units, is_zero_decimal, is_three_decimal}
use boxoffice.Payments.Units.Exact.{to_minor_units_exact, zero_decimal_drift}
use boxoffice.Payments.LineItems.{line_items_for_hold, charge}
use boxoffice.Payments.LineItems.Reconcile.{IsUniform, line_items_reconcile}
use boxoffice.Orders.Money.{hold_currency}
use boxoffice.Tests.{summer, shop}
use boxoffice.Tests.Holds.{seat_buyer}

compute_discount_bounds_example :
    (pos 0 ≤ℤ compute_discount summer (pos 5003)) × (compute_discount summer (pos 5003) ≤ℤ pos 5003)
compute_discount_bounds_example =
    compute_discount_bounds summer (pos 5003) (omega arith) (inr (omega arith))

compute_discount_nearest_example :
    let d = pos_part (compute_discount summer (pos 5003)) in
    (2 * (summer.value * 5003) ≤ 20000 * d + 10000)
    × (20000 * d ≤ 2 * (summer.value * 5003) + 10000)
compute_discount_nearest_example = compute_discount_nearest summer 5003 refl

validate_code_iff_example :
    (validate_code summer (pos 5003) (codes "usd") 8000 ≡ ok tt)
    ↔ IsUsable summer (pos 5003) (codes "usd") 8000
validate_code_iff_example = validate_code_iff summer (pos 5003) (codes "usd") 8000

-- 15% of 50.03 is 7.5045.
compute_discount_run : compute_discount summer (pos 5003) ≡ pos 750
unfolding compute_discount scale
compute_discount_run = refl

get_usable_code_run : get_usable_code 7 (some (codes " Summer ")) (summer ∷ []) ≡ some summer
unfolding get_usable_code
get_usable_code_run = refl

get_usable_code_scoped_example :
    (summer.organization ≡ 7)
    × (summer.code ≡ normalize (some (codes " Summer ")))
    × (summer.code ≢ [])
get_usable_code_scoped_example =
    get_usable_code_scoped 7 (some (codes " Summer ")) (summer ∷ []) get_usable_code_run

to_minor_units_exact_example : to_minor_units (negsuc 4) (codes "kwd") ≡ scale 10 (negsuc 4)
unfolding is_zero_decimal is_three_decimal
to_minor_units_exact_example = to_minor_units_exact (negsuc 4) (codes "kwd") refl

zero_decimal_drift_example :
    to_minor_units (pos 250 +ℤ pos 250) (codes "JPY")
    ≡ to_minor_units (pos 250) (codes "JPY") +ℤ to_minor_units (pos 250) (codes "JPY") +ℤ pos 1
unfolding is_zero_decimal
zero_decimal_drift_example = zero_decimal_drift 1 (codes "JPY") refl

-- The two seats with a promo code worth 12 and a gift of 5.
abbrev full_cart : Hold
full_cart = record seat_buyer {
  discount_amount = some (pos 1200);
  donation_amount = some (pos 500);
}

full_cart-IsUniform : IsUniform 1 shop full_cart
unfolding is_zero_decimal is_three_decimal hold_currency
full_cart-IsUniform = record { whole = (refl, refl); seats = ((refl, refl), ((refl, refl), tt)) }

line_items_reconcile_example :
    charge (line_items_for_hold shop full_cart)
      -ℤ to_minor_units (pos 1200) (hold_currency shop full_cart)
    ≡ to_minor_units (hold_grand_total shop full_cart) (hold_currency shop full_cart)
unfolding hold_total ◌+ℤ◌
line_items_reconcile_example =
    line_items_reconcile 1 shop full_cart (inl refl) full_cart-IsUniform (omega arith) (omega arith)

hold_grand_total_run : hold_grand_total shop full_cart ≡ pos 7300
unfolding hold_grand_total hold_total ◌+ℤ◌ ◌-ℤ◌
hold_grand_total_run = refl
