-- ===== src/Passes/Balance.antt =====
-- passes/services.py's restore_redemptions_for_order and the entitlements of a pass: the credits of a
-- flex pass are conserved, and a season pass admits once to an event.
pub mod Restored
use boxoffice.Passes.{credits_for, restore_purchase, restore_redemptions_for_order}
use boxoffice.Payments.PassRedemption.{is_season_use}
use boxoffice.Common.Updates.{count_by-update}
use boxoffice.Common.{
  ℕ, ◌+◌, ◌≤◌, ◌≡◌, refl, inl, inr, Bool, true, false, not, some, List, [], ◌∷◌, arith, ◌==◌,
  Bool-cases, select, any, update_where, All, count_by, is_empty,
}
use boxoffice.Db.{Db, PassKind, PassPurchase, PassRedemption}

-- What is left on a flex pass and what was used of it add up to what was sold.
pub record IsBalanced (rows : List PassRedemption) (p : PassPurchase) : Type 0 where
  pub left : ℕ
  pub sold : ℕ
  pub credits_remaining : p.credits_remaining ≡ some left
  pub credit_count : p.credit_count ≡ some sold
  pub conserved : left + credits_for p.id rows ≡ sold

-- A season pass has no credits to count.
abbrev pub IsMetered : List PassRedemption → PassPurchase → Type 0
IsMetered rows p = p.kind ≡ PassKind.flex → IsBalanced rows p

pub record Entitled (db : Db) : Type 0 where
  pub metered : All (IsMetered db.pass_redemptions) db.pass_purchases
  pub season_once : (pass event : ℕ) → count_by (is_season_use pass event) db.pass_redemptions ≤ 1
  -- A pass's pk is its own.
  pub pass_once : (k : ℕ) → count_by (λ q. q.id == k) db.pass_purchases ≤ 1

module _ (order : ℕ) where
  abbrev of_order : PassRedemption → Bool
  of_order r = r.order == order

  -- The credits of a pass, in the order's rows and in the others.
  credits-split :
      (pass : ℕ) (rows : List PassRedemption)
      → credits_for pass rows
        ≡ credits_for pass (select of_order rows)
          + credits_for pass (select (λ r. not (of_order r)) rows)
  credits-split pass [] = omega arith
  credits-split pass (r ∷ rows) = ground (arith, credits-split pass rows)

  no_credits :
      (pass : ℕ) (rows : List PassRedemption)
      → any (λ r. r.pass_purchase == pass) rows ≡ false
      → credits_for pass rows ≡ 0
  no_credits pass [] h = refl
  no_credits pass (r ∷ rows) h = ground (arith, no_credits pass rows)

  restored-IsMetered :
      (rows : List PassRedemption) (p : PassPurchase)
      → IsMetered rows p
      → IsMetered
          (select (λ r. not (of_order r)) rows)
          (restore_purchase p (credits_for p.id (select of_order rows)))
  restored-IsMetered rows p m flex =
      let b = m (ground (arith, flex)) in
      record {
        left = b.left + credits_for p.id (select of_order rows);
        sold = b.sold;
        credits_remaining = ground (arith, b.credits_remaining);
        credit_count = ground (arith, b.credit_count);
        conserved = ground (arith, b.conserved, credits-split p.id rows);
      }

  untouched-IsMetered :
      (rows : List PassRedemption) (p : PassPurchase)
      → any (λ r. r.pass_purchase == p.id) (select of_order rows) ≡ false
      → IsMetered rows p
      → IsMetered (select (λ r. not (of_order r)) rows) p
  untouched-IsMetered rows p none_here m flex =
      let b = m flex in
      record {
        left = b.left;
        sold = b.sold;
        credits_remaining = b.credits_remaining;
        credit_count = b.credit_count;
        conserved = omega (
          arith,
          b.conserved,
          credits-split p.id rows,
          no_credits p.id (select of_order rows) none_here,
        );
      }

  restored-all :
      (rows : List PassRedemption) (ps : List PassPurchase)
      → All (IsMetered rows) ps
      → All (IsMetered (select (λ r. not (of_order r)) rows)) (
          update_where
            (λ p. any (λ r. r.pass_purchase == p.id) (select of_order rows))
            (λ p. restore_purchase p (credits_for p.id (select of_order rows)))
            ps)
  restored-all rows [] m = tt
  restored-all rows (p ∷ ps) m = (
    elim (Bool-cases (any (λ r. r.pass_purchase == p.id) (select of_order rows))) [
      | inl here ↦ rw here (restored-IsMetered rows p m.0)
      | inr elsewhere ↦ rw elsewhere (untouched-IsMetered rows p elsewhere m.0)
    ],
    restored-all rows ps m.1,
  )

  fewer_uses :
      (pass event : ℕ) (rows : List PassRedemption)
      → count_by (is_season_use pass event) (select (λ r. not (of_order r)) rows)
        ≤ count_by (is_season_use pass event) rows
  fewer_uses pass event [] = omega arith
  fewer_uses pass event (r ∷ rows) = ground (arith, fewer_uses pass event rows)

same_pass :
    (db : Db) (order k : ℕ) (ps : List PassPurchase)
    → All
        (λ p.
          any (λ r. r.pass_purchase == p.id) (select (of_order order) db.pass_redemptions) ≡ true
          → ((restore_purchase p
                (credits_for p.id (select (of_order order) db.pass_redemptions))).id
              == k)
            ≡ (p.id == k))
        ps
same_pass db order k [] = tt
same_pass db order k (p ∷ ps) = (λ _. ground arith, same_pass db order k ps)

-- The entitlements of every pass survive the undoing of an order's redemptions.
pub restore_redemptions_for_order-Entitled :
    (db : Db) (order : ℕ) → Entitled db → Entitled (restore_redemptions_for_order db order).0
unfolding restore_redemptions_for_order
restore_redemptions_for_order-Entitled db order v =
    elim (Bool-cases (is_empty (select (of_order order) db.pass_redemptions))) [
      | inl nothing ↦ rw nothing v
      | inr rows ↦ rw rows (record {
        metered = restored-all order db.pass_redemptions db.pass_purchases v.metered;
        season_once = λ pass event.
            omega
              (arith, fewer_uses order pass event db.pass_redemptions, v.season_once pass event);
        pass_once = λ k.
            rw
              (count_by-update
                (λ p.
                  any (λ r. r.pass_purchase == p.id) (select (of_order order) db.pass_redemptions))
                (λ p.
                  restore_purchase p
                    (credits_for p.id (select (of_order order) db.pass_redemptions)))
                (λ q. q.id == k) db.pass_purchases (same_pass db order k db.pass_purchases))
              (v.pass_once k);
      })
    ]
