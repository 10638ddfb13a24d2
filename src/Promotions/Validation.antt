-- ===== src/Promotions/Validation.antt =====
-- When promotions/services.py's `validate_code` accepts a code.
use boxoffice.Common.{
  ℕ, ◌≤◌, ◌<◌, ◌≡◌, refl, ◌⊎◌, ◌↔◌, Bool, true, false, not, ◌&&◌, Option, none, some, [], arith,
  ltb, leb,
}
use boxoffice.Common.Int.{ℤ, ◌≤ℤ◌, leb_ℤ}
use boxoffice.Common.Text.{Text, text_eq, is_blank, upper, text_eq_iff}
use boxoffice.Common.Results.{Result, ok, ◌>>◌, raise_if}
use boxoffice.Promotions.{
  PromoCode, Kind, compute_discount, validate_code, if_set, PromoError, is_percent,
}

-- What a bound that may be absent asks for.
abbrev pub IfSet {ℓ} : {A : Type ℓ} → Option A → (A → Type 0) → Type 0
IfSet none P = Unit
IfSet (some a) P = P a

-- The conditions of the docstring, as a specification that runs no code.
pub record IsUsable (promo : PromoCode) (subtotal : ℤ) (currency : Text) (now : ℕ) : Type 0 where
  pub active : promo.is_active ≡ true
  pub started : IfSet promo.starts_at (λ t. t ≤ now)
  pub running : IfSet promo.ends_at (λ t. now ≤ t)
  pub below_cap : IfSet promo.max_redemptions (λ m. promo.redemption_count < m)
  pub reaches_minimum : IfSet promo.min_order_amount (λ m. m ≤ℤ subtotal)
  pub same_currency :
      (promo.kind ≡ Kind.percent) ⊎ (promo.currency ≡ []) ⊎ (upper promo.currency ≡ upper currency)
  pub leaves_a_charge : ¬ (subtotal ≤ℤ compute_discount promo subtotal)

-- One test of the chain: the call is accepted exactly if the test fails and the rest accepts.
raise_if_iff :
    (b : Bool) (e : PromoError) (rest : Result PromoError (Unit {0}))
    → ((raise_if b e >> rest) ≡ ok tt) ↔ ((b ≡ false) × (rest ≡ ok tt))
raise_if_iff true e rest = (λ h. cc, λ h. cc h.0)
raise_if_iff false e rest = (λ h. (refl, h), λ h. h.1)

last_iff : (b : Bool) (e : PromoError) → (raise_if b e ≡ ok tt) ↔ (b ≡ false)
last_iff b e = (λ h. ground arith, λ h. ground arith)

if_set_iff {ℓ} :
    {A : Type ℓ} (o : Option A) (test : A → Bool) (P : A → Type 0)
    → ((a : A) → (test a ≡ false) ↔ P a)
    → (if_set o test ≡ false) ↔ IfSet o P
if_set_iff none test P h = (λ _. tt, λ _. refl)
if_set_iff (some a) test P h = h a

not_lt : (a b : ℕ) → (ltb a b ≡ false) ↔ (b ≤ a)
not_lt a b = (λ h. ground arith, λ h. ground arith)

not_le : (a b : ℕ) → (leb a b ≡ false) ↔ (b < a)
not_le a b = (λ h. ground arith, λ h. ground arith)

active_iff : (b : Bool) → (not b ≡ false) ↔ (b ≡ true)
active_iff b = (λ h. ground arith, λ h. ground arith)

charge_iff : (s d : ℤ) → (leb_ℤ s d ≡ false) ↔ (¬ (s ≤ℤ d))
charge_iff s d = (λ h. ground arith, λ h. ground arith)

currency_iff :
    (k : Kind) (own charge : Text)
    → ((not (is_percent k) && not (is_blank own) && not (text_eq (upper own) (upper charge)))
        ≡ false)
      ↔ ((k ≡ Kind.percent) ⊎ (own ≡ []) ⊎ (upper own ≡ upper charge))
currency_iff k own charge = (
  λ h. ground (arith, text_eq_iff (upper own) (upper charge)),
  λ h. ground (arith, text_eq_iff (upper own) (upper charge)),
)

-- A code is accepted exactly if it is usable: active, inside its window, below its cap, with the
-- cart at its minimum, in the charge currency where it is a fixed amount in a currency of its own,
-- and with something left to charge.
pub validate_code_iff :
    (promo : PromoCode) (subtotal : ℤ) (currency : Text) (now : ℕ)
    → (validate_code promo subtotal currency now ≡ ok tt) ↔ IsUsable promo subtotal currency now
unfolding validate_code
validate_code_iff promo subtotal currency now = (
  λ h.
      let (a, h₁) = (raise_if_iff _ _ _).0 h in
      let (b, h₂) = (raise_if_iff _ _ _).0 h₁ in
      let (c, h₃) = (raise_if_iff _ _ _).0 h₂ in
      let (d, h₄) = (raise_if_iff _ _ _).0 h₃ in
      let (e, h₅) = (raise_if_iff _ _ _).0 h₄ in
      let (f, h₆) = (raise_if_iff _ _ _).0 h₅ in
      let last = (last_iff _ _).0 h₆ in
      record {
        active = (active_iff _).0 a;
        started = (if_set_iff promo.starts_at _ _ (λ t. not_lt now t)).0 b;
        running = (if_set_iff promo.ends_at _ _ (λ t. not_lt t now)).0 c;
        below_cap =
            (if_set_iff promo.max_redemptions _ _ (λ m. not_le m promo.redemption_count)).0 d;
        reaches_minimum = (if_set_iff promo.min_order_amount _ _ (λ m. not_lt _ _)).0 e;
        same_currency = (currency_iff promo.kind promo.currency currency).0 f;
        leaves_a_charge = (charge_iff subtotal _).0 last;
      },
  λ u. (raise_if_iff _ _ _).1 (
    (active_iff _).1 u.active,
    (raise_if_iff _ _ _).1 (
      (if_set_iff promo.starts_at _ _ (λ t. not_lt now t)).1 u.started,
      (raise_if_iff _ _ _).1 (
        (if_set_iff promo.ends_at _ _ (λ t. not_lt t now)).1 u.running,
        (raise_if_iff _ _ _).1 (
          (if_set_iff promo.max_redemptions _ _ (λ m. not_le m promo.redemption_count)).1
              u.below_cap,
          (raise_if_iff _ _ _).1 (
            (if_set_iff promo.min_order_amount _ _ (λ m. not_lt _ _)).1 u.reaches_minimum,
            (raise_if_iff _ _ _).1 (
              (currency_iff promo.kind promo.currency currency).1 u.same_currency,
              (last_iff _ _).1 ((charge_iff subtotal _).1 u.leaves_a_charge),
            ),
          ),
        ),
      ),
    ),
  ),
)
