-- ===== src/Payments/PassRedemption/Used.antt =====
-- payments/services.py's fulfill_hold_with_pass: what a redemption notes of the pass that it spends.
use boxoffice.Payments.PassRedemption.Checked.{SamePasses}
use boxoffice.Passes.{credits_for, is_flex}
use boxoffice.Payments.PassRedemption.{
  is_season_use, is_used_for, new_redemption, ticket_count, check_budget, burn_credits,
}
use boxoffice.Common.{
  ℕ, ◌+◌, ◌≡◌, refl, inl, inr, true, false, List, [], ◌∷◌, map, any, ◌≢◌, arith, ◌==◌, ==_refl,
  Bool-cases, length, All,
}
use boxoffice.Common.Results.{ok, err-ne-ok}
use boxoffice.Db.{Db, Hold, Order, Ticket, PassPurchase, PassRedemption}

-- What a redemption notes of its pass: the credits of a flex pass, and of a season pass the event, for
-- which it is then refused.
pub record IsUsed (db db' : Db) (hold : Hold) (p : PassPurchase) : Type 0 where
  pub flex :
      is_flex p.kind ≡ true
      → credits_for p.id db'.pass_redemptions
        ≡ credits_for p.id db.pass_redemptions + ticket_count hold
  pub season :
      is_flex p.kind ≡ false
      → any (is_season_use p.id (db.performance hold.performance).event) db'.pass_redemptions ≡ true
  pub refused :
      is_flex p.kind ≡ false
      → (n : ℕ) → check_budget db' p (db.performance hold.performance).event n ≢ ok tt

pub refuse :
    (db : Db) (p : PassPurchase) (event n : ℕ)
    → is_flex p.kind ≡ false
    → any (is_used_for p.id event) db.pass_redemptions ≡ true
    → check_budget db p event n ≢ ok tt
refuse db p event n is used e = elim (Bool-cases (n == 1)) [
  | inl one ↦ err-ne-ok (rw (is, one, used) at e)
  | inr other ↦ err-ne-ok (rw (is, other) at e)
]

pub season-used :
    (pass event : ℕ) (rows : List PassRedemption)
    → All (λ r. is_season_use pass event r ≡ true → is_used_for pass event r ≡ true) rows
season-used pass event [] = tt
season-used pass event (r ∷ rows) = (λ h. ground (arith, h), season-used pass event rows)

pub season_use :
    (db : Db) (hold : Hold) (order : Order) (p : PassPurchase) (event : ℕ)
    → (db.performance hold.performance).event ≡ event
    → (ts : List Ticket) → length ts ≢ 0
    → any (is_season_use p.id event) (map (new_redemption db hold order p 0) ts) ≡ true
season_use db hold order p event e [] h = absurd (h refl)
season_use db hold order p event e (t ∷ ts) h = rw (e, ==_refl p.id, ==_refl event) refl

pub burned-rows :
    (db : Db) (p : PassPurchase) (n : ℕ)
    → (burn_credits db p n).pass_redemptions ≡ db.pass_redemptions
burned-rows db p n = ground arith

pub IsUsed-same :
    (db db' db'' : Db) (hold : Hold) (p : PassPurchase)
    → SamePasses db db'
    → IsUsed db' db'' hold p
    → IsUsed db db'' hold p
IsUsed-same db db' db'' hold p same u = record {
  flex = λ is. rw same.pass_redemptions at (u.flex is);
  season = λ is. rw same.performance at (u.season is);
  refused = λ is n. rw same.performance at (u.refused is n);
}
