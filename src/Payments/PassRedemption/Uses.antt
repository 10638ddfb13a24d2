-- ===== src/Payments/PassRedemption/Uses.antt =====
-- payments/services.py: what the rows that a redemption writes do to the entitlements of a pass.
use boxoffice.Common.Counting.{count_by-append, count_by-zero}
use boxoffice.Passes.{credits_for}
use boxoffice.Payments.PassRedemption.{is_season_use, is_second_use, record_uses, new_redemption}
use boxoffice.Common.{
  ℕ, ◌+◌, ◌*◌, ◌≤◌, ◌≡◌, refl, sym, ap, subst, ◌∙◌, inl, inr, true, false, List, [], ◌∷◌, ◌++◌, map,
  arith, ◌==◌, if◌then◌else◌, Bool-cases, length, any, count_by,
}
use boxoffice.Common.Results.{ok, ok-injective, err-ne-ok}
use boxoffice.Db.{Db, Hold, Order, Ticket, PassPurchase, PassRedemption}

abbrev pub SeasonOnce : List PassRedemption → Type 0
SeasonOnce rows = (pass event : ℕ) → count_by (is_season_use pass event) rows ≤ 1

season_use_parts :
    (pass event : ℕ) (r : PassRedemption)
    → is_season_use pass event r ≡ true
    → (r.pass_purchase ≡ pass) × ((r.event ≡ event) × ((r.credits_used == 0) ≡ true))
season_use_parts pass event r h = ground arith

add_use :
    (rows : List PassRedemption) (r : PassRedemption)
    → is_second_use rows r ≡ false
    → SeasonOnce rows
    → SeasonOnce (rows ++ r ∷ [])
add_use rows r new once pass event =
    rw (count_by-append (is_season_use pass event) rows (r ∷ []))
      (elim (Bool-cases (is_season_use pass event r)) [
        | inr other ↦ rw other (omega (arith, once pass event))
        | inl counted ↦
            let (p, (v, free)) = season_use_parts pass event r counted in
            let unused : any (is_season_use r.pass_purchase r.event) rows ≡ false =
              ground (arith, new, free) in
            let unused' : any (is_season_use pass event) rows ≡ false =
              subst (λ k. any (is_season_use k event) rows ≡ false) p
                (subst (λ k. any (is_season_use r.pass_purchase k) rows ≡ false) v unused) in
            rw counted (omega (arith, count_by-zero (is_season_use pass event) rows unused'))
      ])

append_one :
    (xs ys : List PassRedemption) (x : PassRedemption) → (xs ++ x ∷ []) ++ ys ≡ xs ++ x ∷ ys
append_one [] ys x = refl
append_one (y ∷ xs) ys x = ap (λ l. y ∷ l) (append_one xs ys x)

append_nil : (xs : List PassRedemption) → xs ≡ xs ++ []
append_nil [] = refl
append_nil (x ∷ xs) = ap (λ l. x ∷ l) (append_nil xs)

-- The rows are added, and the season passes among them admit once to an event.
pub record_uses_lem :
    (rows new : List PassRedemption) {rows' : List PassRedemption}
    → record_uses rows new ≡ ok rows'
    → SeasonOnce rows
    → (rows ++ new ≡ rows') × SeasonOnce rows'
unfolding record_uses
record_uses_lem rows [] e once =
    (sym (append_nil rows) ∙ ok-injective e, subst SeasonOnce (ok-injective e) once)
record_uses_lem rows (r ∷ new) e once = elim (Bool-cases (is_second_use rows r)) [
  | inl second ↦ absurd (err-ne-ok (rw (second, record_uses) at e))
  | inr first ↦
      let (all, once') =
        record_uses_lem (rows ++ r ∷ []) new (rw (first, record_uses) at e)
          (add_use rows r first once) in
      (sym (append_one rows new r) ∙ all, once')
]

pub credits_for-append :
    (pass : ℕ) (xs ys : List PassRedemption)
    → credits_for pass (xs ++ ys) ≡ credits_for pass xs + credits_for pass ys
credits_for-append pass [] ys = omega arith
credits_for-append pass (x ∷ xs) ys = ground (arith, credits_for-append pass xs ys)

module _ (db : Db) (hold : Hold) (order : Order) (p : PassPurchase) where
  -- A row for each ticket uses the pass, and no other.
  pub credits_for-uses :
      (pass u : ℕ) (ts : List Ticket)
      → credits_for pass (map (new_redemption db hold order p u) ts)
        ≡ (if p.id == pass then u * length ts else 0)
  credits_for-uses pass u [] = ground arith
  credits_for-uses pass u (t ∷ ts) = ground (arith, credits_for-uses pass u ts)
