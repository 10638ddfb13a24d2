-- ===== src/Passes/Balance/Restored.antt =====
-- passes/services.py's restore_redemptions_for_order: what it gives back, to which pass, and which
-- rows it deletes.
use boxoffice.Passes.{credits_for, restore_purchase, restore_redemptions_for_order}
use boxoffice.Passes.Balance.{Entitled, restore_redemptions_for_order-Entitled}
use boxoffice.Payments.PassRedemption.{is_season_use}
use boxoffice.Common.Counting.{find_first-update, find_first-holds, any_of_count}
use boxoffice.Common.Updates.{count_of_any}
use boxoffice.Common.{
  ℕ, ◌+◌, ◌≤◌, ◌≡◌, refl, sym, ap, subst, ◌∙◌, inl, inr, Bool, ==_iff, true, false, not, none, some,
  List, [], ◌∷◌, arith, ◌==◌, if◌then◌else◌, Bool-cases, length, select, find_first, any,
  update_where, count_by, is_empty,
}
use boxoffice.Db.{Db, PassPurchase, PassRedemption}

abbrev pub is_of_order : ℕ → PassRedemption → Bool
is_of_order order r = r.order == order

-- What the call does: `db` before, `db'` after, with the number that it returns.
pub record Restored (order : ℕ) (db db' : Db) (undone : ℕ) : Type 0 where
  pub entitled : Entitled db'
  pub counted : undone ≡ count_by (is_of_order order) db.pass_redemptions
  pub gone : any (is_of_order order) db'.pass_redemptions ≡ false
  pub kept : db'.pass_redemptions ≡ select (λ r. not (is_of_order order r)) db.pass_redemptions
  -- A pass with credits has those back that the order's rows used of it.
  pub credited :
      (k c : ℕ) (p : PassPurchase)
      → find_first (λ q. q.id == k) db.pass_purchases ≡ some p
      → p.credits_remaining ≡ some c
      → (p' : PassPurchase) × (find_first (λ q. q.id == k) db'.pass_purchases ≡ some p')
        × (p'.credits_remaining
            ≡ some (c + credits_for k (select (is_of_order order) db.pass_redemptions)))
  -- An event that the order had used of a season pass is free again.
  pub freed :
      (pass event : ℕ)
      → any (is_season_use pass event) (select (is_of_order order) db.pass_redemptions) ≡ true
      → any (is_season_use pass event) db'.pass_redemptions ≡ false

module _ (order : ℕ) where
  length-rows :
      (rows : List PassRedemption)
      → length (select (is_of_order order) rows) ≡ count_by (is_of_order order) rows
  length-rows [] = refl
  length-rows (r ∷ rows) = ground (arith, length-rows rows)

  none_left :
      (rows : List PassRedemption)
      → any (is_of_order order) (select (λ r. not (is_of_order order r)) rows) ≡ false
  none_left [] = refl
  none_left (r ∷ rows) = ground (arith, none_left rows)

  no_rows :
      (rows : List PassRedemption)
      → is_empty (select (is_of_order order) rows) ≡ true
      → (count_by (is_of_order order) rows ≡ 0)
        × ((any (is_of_order order) rows ≡ false)
            × (rows ≡ select (λ r. not (is_of_order order r)) rows))
  no_rows [] h = (refl, (refl, refl))
  no_rows (r ∷ rows) h = elim (Bool-cases (is_of_order order r)) [
    | inl here ↦ absurd (cc (rw here at h))
    | inr other ↦
        let (a, (b, c)) = no_rows rows (rw other at h) in
        rw other (omega (arith, a), (b, ap (λ l. r ∷ l) c))
  ]

  uses-split :
      (p : PassRedemption → Bool) (rows : List PassRedemption)
      → count_by p rows
        ≡ count_by p (select (is_of_order order) rows)
          + count_by p (select (λ r. not (is_of_order order r)) rows)
  uses-split p [] = refl
  uses-split p (r ∷ rows) = ground (arith, uses-split p rows)

true-ne-false : true ≡ false → ⊥
true-ne-false e = cc

empty_rows : (rows : List PassRedemption) → is_empty rows ≡ true → rows ≡ []
empty_rows [] h = refl
empty_rows (r ∷ rows) h = cc

restore_purchase-credits :
    (p : PassPurchase) (c restored : ℕ)
    → p.credits_remaining ≡ some c
    → (restore_purchase p restored).credits_remaining ≡ some (c + restored)
restore_purchase-credits p c restored e = ground (arith, e)

unused :
    (pass : ℕ) (rows : List PassRedemption)
    → any (λ r. r.pass_purchase == pass) rows ≡ false
    → credits_for pass rows ≡ 0
unused pass [] h = refl
unused pass (r ∷ rows) h = ground (arith, unused pass rows)

module _ (order : ℕ) (rows : List PassRedemption) where
  abbrev is_credited : PassPurchase → Bool
  is_credited p = any (λ r. r.pass_purchase == p.id) rows

  abbrev credit : PassPurchase → PassPurchase
  credit p = restore_purchase p (credits_for p.id rows)

  credit-id : (k : ℕ) (p : PassPurchase) → ((credit p).id == k) ≡ (p.id == k)
  credit-id k p = ground arith

  credited_pass :
      (k c : ℕ) (ps : List PassPurchase) (p : PassPurchase)
      → find_first (λ q. q.id == k) ps ≡ some p
      → p.credits_remaining ≡ some c
      → (p' : PassPurchase) × (find_first (λ q. q.id == k) (update_where is_credited credit ps)
          ≡ some p')
        × (p'.credits_remaining ≡ some (c + credits_for k rows))
  credited_pass k c ps p found e =
      let named : p.id ≡ k = (==_iff p.id k).0 (find_first-holds (λ q. q.id == k) ps p found) in
      let there =
        find_first-update (λ q. q.id == k) is_credited credit ps (credit-id k)
        ∙ ap (λ o. elim o [ none ↦ none | some a ↦ some (if is_credited a then credit a else a) ])
            found in
      elim (Bool-cases (is_credited p)) [
        | inl hit ↦ (
          credit p,
          rw hit at there,
          subst (λ n. (credit p).credits_remaining ≡ some (c + credits_for n rows)) named
              (restore_purchase-credits p c (credits_for p.id rows) e),
        )
        | inr miss ↦ (
          p,
          rw miss at there,
          e
              ∙ ap some (
                  omega (arith, subst (λ n. credits_for n rows ≡ 0) named (unused p.id rows miss))),
        )
      ]

season_freed :
    (order : ℕ) (p : PassRedemption → Bool) (rows : List PassRedemption)
    → count_by p rows ≤ 1
    → any p (select (is_of_order order) rows) ≡ true
    → any p (select (λ r. not (is_of_order order r)) rows) ≡ false
season_freed order p rows once used =
    any_of_count p (select (λ r. not (is_of_order order r)) rows) (
      omega (
        arith,
        once,
        uses-split order p rows,
        count_of_any p (select (is_of_order order) rows) used,
      ))

-- Where the entitlements of every pass hold, undoing an order's redemptions returns their number,
-- deletes them and no others, gives each pass with credits exactly those back that they used of it, and
-- frees the events that they used of a season pass; what is left and what was used still add up to what
-- was sold.
pub restore_redemptions_for_order_exact :
    (db : Db) (order : ℕ)
    → Entitled db
    → Restored order db
        (restore_redemptions_for_order db order).0
        (restore_redemptions_for_order db order).1
unfolding restore_redemptions_for_order
restore_redemptions_for_order_exact db order v =
    let entitled = restore_redemptions_for_order-Entitled db order v in
    elim (Bool-cases (is_empty (select (is_of_order order) db.pass_redemptions))) [
      | inl nothing ↦
          let (number, (gone, kept)) = no_rows order db.pass_redemptions nothing in
          let empty = empty_rows (select (is_of_order order) db.pass_redemptions) nothing in
          rw nothing (record {
            entitled = v;
            counted = sym number;
            gone = gone;
            kept = kept;
            credited = λ k c p found e. (p, found, rw empty (e ∙ ap some (omega arith)));
            freed = λ pass event used.
                absurd (true-ne-false (sym used ∙ ap (any (is_season_use pass event)) empty));
          })
      | inr some_rows ↦ rw some_rows (record {
        entitled = rw some_rows at entitled;
        counted = length-rows order db.pass_redemptions;
        gone = none_left order db.pass_redemptions;
        kept = refl;
        credited = λ k c p found e.
            credited_pass order (select (is_of_order order) db.pass_redemptions) k c
              db.pass_purchases p found e;
        freed = λ pass event used.
            season_freed order (is_season_use pass event) db.pass_redemptions
              (v.season_once pass event) used;
      })
    ]
