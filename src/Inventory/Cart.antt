-- ===== src/Inventory/Cart.antt =====
-- orders/services.py's promo and donation calls keep the inventory's invariant, whatever hold the
-- request names.
use boxoffice.Orders.Cart.{
  save_hold, is_own_hold, with_promo, without_promo, apply_promo_code, remove_promo_code,
  with_donation, without_donation, set_hold_donation, clear_hold_donation,
}
use boxoffice.Orders.Availability.{is_active}
use boxoffice.Orders.Cart.Outcome.{apply_promo_code_lem, set_hold_donation_lem}
use boxoffice.Inventory.{IsSound}
use boxoffice.Inventory.Saves.{SameClaim, save_hold-IsSound}
use boxoffice.Common.{
  ℕ, ◌≡◌, refl, subst, inl, inr, ◌&&◌, Option, none, some, Option-cases, find_first,
}
use boxoffice.Common.Int.{ℤ}
use boxoffice.Common.Text.{Text}
use boxoffice.Common.Results.{ok}
use boxoffice.Db.{Db, Hold}

module _ (now : ℕ) (db : Db) (organization session_key : ℕ) (hold_id : Option ℕ)
    (v : IsSound now db) where
  pub apply_promo_code-IsSound :
      (code : Option Text) {db' : Db} {hold : Hold}
      → apply_promo_code db organization session_key hold_id code now ≡ ok (db', hold)
      → IsSound now db'
  apply_promo_code-IsSound code e =
      let (hold, promo, own, found, usable, out) =
        apply_promo_code_lem db organization session_key hold_id now code e in
      subst (λ (o : Db × Hold). IsSound now o.0) out
        (save_hold-IsSound now db hold (with_promo db hold promo)
          (λ h. is_own_hold organization session_key hold_id h && is_active now h) own
          (record {
            id = refl;
            organization = refl;
            performance = refl;
            expires_at = refl;
            quantity = refl;
            hold_seats = refl;
          })
          v)

  pub set_hold_donation-IsSound :
      (amount : Option ℤ) (campaign : Option ℕ) {db' : Db} {hold : Hold}
      → set_hold_donation db organization session_key hold_id amount campaign now ≡ ok (db', hold)
      → IsSound now db'
  set_hold_donation-IsSound amount campaign e =
      let (hold, gift, own, given, low, high, out) =
        set_hold_donation_lem db organization session_key hold_id now amount campaign e in
      subst (λ (o : Db × Hold). IsSound now o.0) out
        (save_hold-IsSound now db hold (with_donation hold gift campaign)
          (λ h. is_own_hold organization session_key hold_id h && is_active now h) own
          (record {
            id = refl;
            organization = refl;
            performance = refl;
            expires_at = refl;
            quantity = refl;
            hold_seats = refl;
          })
          v)

  -- A write of the hold that a request names, if there is one.
  save_named :
      (f : Hold → Hold)
      → ((h : Hold) → SameClaim h (f h))
      → IsSound now (elim (find_first (is_own_hold organization session_key hold_id) db.holds) [
        | none ↦ db
        | some hold ↦ save_hold db (f hold)
      ])
  save_named f c =
      elim (Option-cases (find_first (is_own_hold organization session_key hold_id) db.holds)) [
        | inl gone ↦ rw gone v
        | inr (hold, own) ↦ rw own (
            save_hold-IsSound now db hold (f hold) (is_own_hold organization session_key hold_id)
              own (c hold) v)
      ]

  pub remove_promo_code-IsSound :
      IsSound now (remove_promo_code db organization session_key hold_id)
  unfolding remove_promo_code
  remove_promo_code-IsSound = save_named without_promo (λ h. record {
    id = refl;
    organization = refl;
    performance = refl;
    expires_at = refl;
    quantity = refl;
    hold_seats = refl;
  })

  pub clear_hold_donation-IsSound :
      IsSound now (clear_hold_donation db organization session_key hold_id)
  unfolding clear_hold_donation
  clear_hold_donation-IsSound = save_named without_donation (λ h. record {
    id = refl;
    organization = refl;
    performance = refl;
    expires_at = refl;
    quantity = refl;
    hold_seats = refl;
  })
