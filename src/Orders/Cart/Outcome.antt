-- ===== src/Orders/Cart/Outcome.antt =====
-- orders/services.py: what a successful apply_promo_code and set_hold_donation have done.
use boxoffice.Promotions.{PromoCode, get_usable_code}
use boxoffice.Promotions.Validation.{IsUsable, validate_code_iff}
use boxoffice.Orders.Money.{hold_total, hold_currency}
use boxoffice.Orders.Cart.{
  own_active_hold, save_hold, with_promo, apply_promo_code, with_donation, set_hold_donation,
  max_hold_donation, or_raise,
}
use boxoffice.Common.{ℕ, ◌≡◌, refl, ap, Bool, true, false, Option, none, some}
use boxoffice.Common.Int.{ℤ, pos, ltb_ℤ, leb_ℤ}
use boxoffice.Common.Text.{Text}
use boxoffice.Common.Results.{ok, raise_if, bind_ok, ok-injective}
use boxoffice.Db.{Db, Hold}

or_raise_ok {ℓ κ} :
    {E : Type κ} {A : Type ℓ} (o : Option A) (e : E) {a : A} → or_raise o e ≡ ok a → o ≡ some a
or_raise_ok none e h = cc
or_raise_ok (some a) e h = ap some (ok-injective h)

raise_if_ok {κ} : {E : Type κ} (b : Bool) (e : E) {u : Unit {0}} → raise_if b e ≡ ok u → b ≡ false
raise_if_ok true e h = cc
raise_if_ok false e h = refl

module _ (db : Db) (organization session_key : ℕ) (hold_id : Option ℕ) (now : ℕ) where
  pub apply_promo_code_lem :
      (code : Option Text) {out : Db × Hold}
      → apply_promo_code db organization session_key hold_id code now ≡ ok out
      → (hold : Hold) × (promo : PromoCode) × (own_active_hold db organization session_key hold_id
            now
          ≡ some hold)
        × (get_usable_code organization code db.promos ≡ some promo)
        × IsUsable promo (hold_total db hold) (hold_currency db hold) now
        × ((save_hold db (with_promo db hold promo), with_promo db hold promo) ≡ out)
  unfolding apply_promo_code
  apply_promo_code_lem code e =
      let (hold, a, e₁) = bind_ok _ _ e in
      let (promo, b, e₂) = bind_ok _ _ e₁ in
      let (u, c, e₃) = bind_ok _ _ e₂ in
      (
        hold,
        promo,
        or_raise_ok _ _ a,
        or_raise_ok _ _ b,
        (validate_code_iff promo (hold_total db hold) (hold_currency db hold) now).0 c,
        ok-injective e₃,
      )

  pub set_hold_donation_lem :
      (amount : Option ℤ) (campaign : Option ℕ) {out : Db × Hold}
      → set_hold_donation db organization session_key hold_id amount campaign now ≡ ok out
      → (hold : Hold) × (gift : ℤ) × (own_active_hold db organization session_key hold_id now
          ≡ some hold)
        × (amount ≡ some gift)
        × (leb_ℤ gift (pos 0) ≡ false)
        × (ltb_ℤ (pos max_hold_donation) gift ≡ false)
        × ((save_hold db (with_donation hold gift campaign), with_donation hold gift campaign)
            ≡ out)
  unfolding set_hold_donation
  set_hold_donation_lem amount campaign e =
      let (hold, a, e₁) = bind_ok _ _ e in
      let (gift, b, e₂) = bind_ok _ _ e₁ in
      let (u, c, e₃) = bind_ok _ _ e₂ in
      let (w, d, e₄) = bind_ok _ _ e₃ in
      (
        hold,
        gift,
        or_raise_ok _ _ a,
        or_raise_ok _ _ b,
        raise_if_ok _ _ c,
        raise_if_ok _ _ d,
        ok-injective e₄,
      )
