-- ===== src/Payments/PassRedemption/Burn.antt =====
-- payments/services.py's fulfill_hold_with_pass: the balance of each pass once the rows are written
-- and the credits are burned.
use boxoffice.Passes.{is_flex, credits_for}
use boxoffice.Passes.Balance.{IsMetered}
use boxoffice.Payments.PassRedemption.{credits, burn, new_redemption}
use boxoffice.Payments.PassRedemption.Uses.{credits_for-append, credits_for-uses}
use boxoffice.Common.{
  ℕ, ◌+◌, ◌-◌, ◌*◌, ◌≤◌, ◌≡◌, refl, sym, ap, subst, ◌∙◌, ◌⊎◌, inl, inr, Bool, true, false, List, [],
  ◌∷◌, ◌++◌, map, arith, ◌==◌, if◌then◌else◌, ==_iff, ==_refl, Bool-cases, length, select,
  update_where, All, count_by,
}
use boxoffice.Db.{Db, Hold, Order, Ticket, PassPurchase, PassRedemption}

abbrev pub use_of : PassPurchase → ℕ
use_of p = if is_flex p.kind then 1 else 0

module _ (db : Db) (hold : Hold) (order : Order) (p : PassPurchase) (ts : List Ticket)
    (rows : List PassRedemption) where
  abbrev rows' : List PassRedemption
  rows' = rows ++ map (new_redemption db hold order p (use_of p)) ts

  credits-after :
      (pass : ℕ)
      → credits_for pass rows'
        ≡ credits_for pass rows + (if p.id == pass then use_of p * length ts else 0)
  credits-after pass =
      credits_for-append pass rows (map (new_redemption db hold order p (use_of p)) ts)
      ∙ ap (λ n. credits_for pass rows + n) (credits_for-uses db hold order p pass (use_of p) ts)

  -- A pass that the rows do not use, or use without credits.
  untouched :
      (q : PassPurchase)
      → ((p.id == q.id) ≡ false) ⊎ (is_flex p.kind ≡ false)
      → IsMetered rows q
      → IsMetered rows' q
  untouched q other m flex =
      let b = m flex in
      record {
        left = b.left;
        sold = b.sold;
        credits_remaining = b.credits_remaining;
        credit_count = b.credit_count;
        conserved = ground (arith, b.conserved, credits-after q.id, other);
      }

  -- The pass itself, where it is a flex pass with enough credits.
  burned :
      is_flex p.kind ≡ true
      → length ts ≤ credits p
      → IsMetered rows p
      → IsMetered rows' (burn (credits p - length ts) p)
  burned is enough m flex =
      let b = m flex in
      record {
        left = credits p - length ts;
        sold = b.sold;
        credits_remaining = refl;
        credit_count = b.credit_count;
        conserved =
            ground (
              arith,
              b.conserved,
              b.credits_remaining,
              credits-after p.id,
              ==_refl p.id,
              is,
              enough,
            );
      }

  pub burned-all :
      (ps : List PassPurchase)
      → is_flex p.kind ≡ true
      → length ts ≤ credits p
      → All (λ q. (q.id == p.id) ≡ true → q ≡ p) ps
      → All (IsMetered rows) ps
      → All (IsMetered rows') (update_where (λ q. q.id == p.id) (burn (credits p - length ts)) ps)
  burned-all [] is enough same m = tt
  burned-all (q ∷ ps) is enough same m = (
    elim (Bool-cases (q.id == p.id)) [
      | inl here ↦ rw here (
          subst (λ q. IsMetered rows' (burn (credits p - length ts) q)) (sym (same.0 here))
            (burned is enough (subst (IsMetered rows) (same.0 here) m.0)))
      | inr other ↦
          rw other (untouched q (inl (ground (arith, other, ==_iff p.id q.id, ==_refl p.id))) m.0)
    ],
    burned-all ps is enough same.1 m.1,
  )

  pub untouched-all :
      (ps : List PassPurchase)
      → is_flex p.kind ≡ false
      → All (IsMetered rows) ps
      → All (IsMetered rows') ps
  untouched-all [] is m = tt
  untouched-all (q ∷ ps) is m = (untouched q (inr is) m.0, untouched-all ps is m.1)

pub length-select {ℓ} :
    {A : Type ℓ} → (p : A → Bool) (xs : List A) → length (select p xs) ≡ count_by p xs
length-select p [] = refl
length-select p (x ∷ xs) = ground (arith, length-select p xs)
