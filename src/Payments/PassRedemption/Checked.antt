-- ===== src/Payments/PassRedemption/Checked.antt =====
-- payments/services.py's fulfill_hold_with_pass: what its tests leave to be known of the pass, and what
-- the guest and a redemption change of the passes.
use boxoffice.Passes.Balance.{IsMetered, Entitled}
use boxoffice.Payments.PassRedemption.Minted.{is_of}
use boxoffice.Common.Results.{map_err}
use boxoffice.Guests.{get_or_create_for_email, record_marketing_opt_in}
use boxoffice.Passes.{is_flex, redeemable_now, pass_covers_performance}
use boxoffice.Payments.PassRedemption.{
  burn, RedeemError, ticket_count, credits, check_budget, check_redemption, fetch_pass,
  attach_holder,
}
use boxoffice.Common.{
  ℕ, ◌≤◌, ◌<◌, ◌≡◌, refl, sym, subst, count_by, ap, ◌∙◌, inl, inr, Bool, true, false, not, some,
  List, [], ◌∷◌, ◌≢◌, arith, ◌==◌, Option-cases, find_first, All,
}
use boxoffice.Common.Text.{Text}
use boxoffice.Common.Results.{Result, ok, err, ◌>>◌, raise_if, ok-injective, err-ne-ok}
use boxoffice.Db.{Db, Hold, Order, Ticket, PassPurchase, PassRedemption}

passed :
    (b : Bool) (failure : RedeemError) (rest : Result RedeemError (Unit {0})) {u : Unit {0}}
    → (raise_if b failure >> rest) ≡ ok u
    → rest ≡ ok u
passed true failure rest h = cc
passed false failure rest h = h

-- Two calls that succeed one after the other.
pub then_ok {ℓ} :
    {B : Type ℓ}
    → (m : Result RedeemError (Unit {0})) (rest : Result RedeemError B) {b : B} → (m >> rest) ≡ ok b
    → (m ≡ ok tt) × (rest ≡ ok b)
then_ok (ok tt) rest h = (refl, h)
then_ok (err e) rest h = cc

map_err_ok {ℓ κ μ} :
    {E : Type κ} {F : Type μ} {A : Type ℓ}
    → (f : E → F) (r : Result E A) {a : A} → map_err f r ≡ ok a
    → r ≡ ok a
map_err_ok f (ok a) h = ap ok (ok-injective h)
map_err_ok f (err e) h = cc

pub fetch_pass_ok :
    (db : Db) (pass : ℕ) {p : PassPurchase}
    → fetch_pass db pass ≡ ok p
    → find_first (λ q. q.id == pass) db.pass_purchases ≡ some p
fetch_pass_ok db pass e = elim (Option-cases (find_first (λ q. q.id == pass) db.pass_purchases)) [
  | inl missing ↦ absurd (err-ne-ok (rw (missing, fetch_pass) at e))
  | inr (p, found) ↦ found ∙ ap some (ok-injective (rw (found, fetch_pass) at e))
]

budget_credits :
    (db : Db) (p : PassPurchase) (event n : ℕ) {u : Unit {0}}
    → check_budget db p event n ≡ ok u
    → is_flex p.kind ≡ true
    → n ≤ credits p
budget_credits db p event n e is = ground arith

-- What the tests leave to be known of a flex pass.
pub enough_credits :
    (db : Db) (hold : Hold) (p : PassPurchase) (now : ℕ) {u : Unit {0}}
    → check_redemption db hold p now ≡ ok u
    → is_flex p.kind ≡ true
    → ticket_count hold ≤ credits p
unfolding check_redemption
enough_credits db hold p now e is =
    let e₁ = passed (not (p.organization == hold.organization)) RedeemError.other_tenant _ e in
    let e₂ = passed (not (redeemable_now p now)) RedeemError.not_active _ e₁ in
    let e₃ =
      passed (not (pass_covers_performance p (db.performance hold.performance)))
        RedeemError.not_covered _ e₂ in
    let e₄ = passed (ticket_count hold == 0) RedeemError.nothing_to_redeem _ e₃ in
    budget_credits db p (db.performance hold.performance).event (ticket_count hold) e₄ is

pub nonempty :
    (db : Db) (hold : Hold) (p : PassPurchase) (now : ℕ) {u : Unit {0}}
    → check_redemption db hold p now ≡ ok u
    → ticket_count hold ≢ 0
unfolding check_redemption
nonempty db hold p now e empty =
    let e₁ = passed (not (p.organization == hold.organization)) RedeemError.other_tenant _ e in
    let e₂ = passed (not (redeemable_now p now)) RedeemError.not_active _ e₁ in
    let e₃ =
      passed (not (pass_covers_performance p (db.performance hold.performance)))
        RedeemError.not_covered _ e₂ in
    err-ne-ok (rw empty at e₃)

-- The guest and the order touch neither tickets nor passes.
pub record SamePasses (db db' : Db) : Type 0 where
  pub tickets : db'.tickets ≡ db.tickets
  pub pass_purchases : db'.pass_purchases ≡ db.pass_purchases
  pub pass_redemptions : db'.pass_redemptions ≡ db.pass_redemptions
  pub next_id : db.next_id ≤ db'.next_id
  pub performance : db'.performance ≡ db.performance

pub attach_holder-SamePasses :
    (db : Db) (hold : Hold) (p : PassPurchase) (email name : Text) (opt_in : Bool) (now : ℕ)
    → SamePasses db (attach_holder db hold p email name opt_in now).0
unfolding get_or_create_for_email record_marketing_opt_in
attach_holder-SamePasses db hold p email name opt_in now = record {
  tickets = ground arith;
  pass_purchases = ground arith;
  pass_redemptions = ground arith;
  next_id = ground arith;
  performance = ground arith;
}

-- No ticket has a pk that was not handed out.
pub none_of :
    (k : ℕ) (ts : List Ticket)
    → All (λ t. t.order < k) ts
    → (order : Order) → k ≤ order.id
    → count_by (is_of order) ts ≡ 0
none_of k [] h order le = refl
none_of k (t ∷ ts) h order le = ground (arith, none_of k ts h.1 order le, h.0)

pub Entitled-same :
    (db db' : Db)
    → db'.pass_purchases ≡ db.pass_purchases
    → db'.pass_redemptions ≡ db.pass_redemptions
    → Entitled db
    → Entitled db'
Entitled-same db db' e d v = record {
  metered = subst (λ rows. All (IsMetered rows) db'.pass_purchases) (sym d) (rw e v.metered);
  season_once = λ pass event. rw d (v.season_once pass event);
  pass_once = λ k. rw e (v.pass_once k);
}

pub IsMetered-by :
    {rows rows' : List PassRedemption} (ps : List PassPurchase)
    → rows ≡ rows'
    → All (IsMetered rows) ps
    → All (IsMetered rows') ps
IsMetered-by ps e m = subst (λ r. All (IsMetered r) ps) e m

pub same_ids :
    (p : PassPurchase) (k left : ℕ) (ps : List PassPurchase)
    → All (λ q. (q.id == p.id) ≡ true → ((burn left q).id == k) ≡ (q.id == k)) ps
same_ids p k left [] = tt
same_ids p k left (q ∷ ps) = (λ _. refl, same_ids p k left ps)
