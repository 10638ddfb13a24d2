-- ===== src/Inventory/Saves.antt =====
-- orders/services.py writes other money on a hold: its promo code and its donation. Such a write
-- leaves the claim on the inventory alone.
use boxoffice.Common.Updates.{only, count_by-update, any-update, sum_by-update, All-update}
use boxoffice.Orders.Availability.{held_quantity}
use boxoffice.Orders.Cart.{save_hold}
use boxoffice.Inventory.{IsSound, IsScoped, ga_held, is_holding}
use boxoffice.Inventory.Changes.{is_ga_holding, ga_held-eq}
use boxoffice.Common.{
  ℕ, ◌<◌, ◌≡◌, refl, sym, ap, subst, ◌∙◌, Bool, true, some, List, [], ◌∷◌, arith, ◌==◌, ==_refl,
  or_else, find_first, All,
}
use boxoffice.Db.{Db, Hold}

-- Two versions of a hold that claim the same places and seats of the same performance.
pub record SameClaim (old new : Hold) : Type 0 where
  pub id : new.id ≡ old.id
  pub organization : new.organization ≡ old.organization
  pub performance : new.performance ≡ old.performance
  pub expires_at : new.expires_at ≡ old.expires_at
  pub quantity : new.quantity ≡ old.quantity
  pub hold_seats : new.hold_seats ≡ old.hold_seats

module _ (now : ℕ) (db : Db) (old new : Hold) (test : Hold → Bool)
    (found : find_first test db.holds ≡ some old) (c : SameClaim old new) where
  -- The update writes over the old version only.
  over_old : IsSound now db → All (λ h. (h.id == new.id) ≡ true → h ≡ old) db.holds
  over_old v =
      only test (λ h. h.id == new.id) db.holds old found (ground (arith, c.id, ==_refl old.id))
        (v.key_once new.id)

  -- So what a query asks of a hold is as before, if the new version passes as the old one did.
  kept :
      {A : Type 0} (q : Hold → A) (hs : List Hold)
      → q new ≡ q old
      → All (λ h. (h.id == new.id) ≡ true → h ≡ old) hs
      → All (λ h. (h.id == new.id) ≡ true → q new ≡ q h) hs
  kept q [] e a = tt
  kept q (h ∷ hs) e a = (λ k. e ∙ ap q (sym (a.0 k)), kept q hs e a.1)

  kept_both :
      {A B : Type 0} (q : Hold → A) (r : Hold → B) (hs : List Hold)
      → q new ≡ q old
      → r new ≡ r old
      → All (λ h. (h.id == new.id) ≡ true → h ≡ old) hs
      → All (λ h. (h.id == new.id) ≡ true → (q new ≡ q h) × (r new ≡ r h)) hs
  kept_both q r [] e d a = tt
  kept_both q r (h ∷ hs) e d a =
      (λ k. (e ∙ ap q (sym (a.0 k)), d ∙ ap r (sym (a.0 k))), kept_both q r hs e d a.1)

  kept_row :
      (P : Hold → Type 0) (hs : List Hold)
      → (P old → P new)
      → All (λ h. (h.id == new.id) ≡ true → h ≡ old) hs
      → All (λ h. (h.id == new.id) ≡ true → P h → P new) hs
  kept_row P [] e a = tt
  kept_row P (h ∷ hs) e a = (λ k ph. e (subst P (a.0 k) ph), kept_row P hs e a.1)

  holding-kept : (p s : ℕ) → is_holding p s now new ≡ is_holding p s now old
  holding-kept p s = rw (c.performance, c.expires_at, c.hold_seats) refl

  ga_holding-kept : (p : ℕ) → is_ga_holding p now new ≡ is_ga_holding p now old
  ga_holding-kept p = rw (c.performance, c.expires_at, c.quantity) refl

  ga_held-kept : IsSound now db → (p : ℕ) → ga_held (save_hold db new) p now ≡ ga_held db p now
  ga_held-kept v p =
      rw (ga_held-eq db p now, ga_held-eq (save_hold db new) p now)
        (sum_by-update (λ h. h.id == new.id) (λ _. new) held_quantity (is_ga_holding p now) db.holds
          (kept_both (is_ga_holding p now) held_quantity db.holds (ga_holding-kept p)
            (ap (λ q. or_else q 0) c.quantity) (over_old v)))

  pub save_hold-IsSound : IsSound now db → IsSound now (save_hold db new)
  save_hold-IsSound v = record {
    scoped =
        All-update (λ h. h.id == new.id) (λ _. new) (IsScoped db) db.holds
          (kept_row (IsScoped db) db.holds (λ own. rw (c.organization, c.performance) own)
            (over_old v))
          v.scoped;
    ga_fits = λ p a e. rw (ga_held-kept v p) (v.ga_fits p a e);
    held_once = λ p s.
        rw
          (count_by-update (λ h. h.id == new.id) (λ _. new) (is_holding p s now) db.holds
            (kept (is_holding p s now) db.holds (holding-kept p s) (over_old v)))
          (v.held_once p s);
    held_not_sold = λ p s e. v.held_not_sold p s (
        sym (
          any-update (λ h. h.id == new.id) (λ _. new) (is_holding p s now) db.holds
            (kept (is_holding p s now) db.holds (holding-kept p s) (over_old v)))
        ∙ e);
    sold_once = v.sold_once;
    tickets_keyed = v.tickets_keyed;
    key_once = λ k.
        rw
          (count_by-update (λ h. h.id == new.id) (λ _. new) (λ h. h.id == k) db.holds
            (kept (λ h. h.id == k) db.holds (ap (λ i. i == k) c.id) (over_old v)))
          (v.key_once k);
    keys =
        All-update (λ h. h.id == new.id) (λ _. new) (λ h. h.id < db.next_id) db.holds
          (kept_row (λ h. h.id < db.next_id) db.holds (λ own. rw c.id own) (over_old v)) v.keys;
  }
