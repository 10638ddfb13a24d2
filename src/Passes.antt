-- ===== src/Passes.antt =====
-- passes/services.py: what a pass covers, what is left on it, and how a redemption is undone.

pub mod Balance
use boxoffice.Common.{
  ℕ, zero, suc, ◌+◌, ◌-◌, ◌*◌, ◌/◌, ◌%◌, ◌≤◌, ◌<◌, ◌≡◌, refl, sym, ap, subst, ◌∙◌, ◌≢◌, ◌⊎◌, inl,
  inr, ◌↔◌, Bool, true, false, not, ◌&&◌, ◌||◌, Option, none, some, List, [], ◌∷◌, ◌++◌, map, arith,
  ltb, leb, ◌==◌, if◌then◌else◌, ltb→lt, lt→ltb, leb→le, ==_iff, ==_refl, &&_split, Bool-cases,
  Option-cases, is_key, is_some, or_else, length, select, find_first, any, update_where, sum_by,
  All, contains, replicate, order_by, count_by, is_empty, insert_by,
}
use boxoffice.Common.Int.{
  ℤ, pos, negsuc, pos_part, neg_part, sub_ℕ, ◌+ℤ◌, ◌-ℤ◌, ◌≤ℤ◌, ltb_ℤ, leb_ℤ, scale, max_ℤ, min_ℤ,
  +ℤ_parts, -ℤ_parts, scale_parts, eq_of_parts, int_laws,
}
use boxoffice.Common.Text.{Text, codes, lower, text_eq, is_blank, upper, strip, text_eq_iff}
use boxoffice.Common.Results.{
  Result, ok, err, ◌>>=◌, ◌>>◌, raise_if, bind_ok, OnOk, OnOk-ok, ok-injective, err-ne-ok,
  Result-cases,
}
use boxoffice.Db.{
  Db, Organization, Performance, Section, Seat, PriceTier, PricingZone, GaAllocation, HoldSeat,
  Hold, SeatBlock, OrderStatus, Order, ItemKind, OrderItem, TicketStatus, Ticket, PaymentStatus,
  Payment, GuestAccount, PassKind, PassStatus, PassProduct, PassPurchase, PassRedemption, is_void,
}

abbrev pub is_flex : PassKind → Bool
is_flex PassKind.flex = true
is_flex PassKind.season = false

abbrev pub is_pass_active : PassStatus → Bool
is_pass_active PassStatus.active = true
is_pass_active other = false

abbrev pub is_exhausted : PassStatus → Bool
is_exhausted PassStatus.exhausted = true
is_exhausted other = false

-- `bound is not None and test(bound)`
abbrev pub beyond : Option ℕ → (ℕ → Bool) → Bool
beyond none test = false
beyond (some t) test = test t

unfoldable pub get_active_products : Db → ℕ → List PassProduct
get_active_products db organization =
    select (λ p. p.organization == organization && p.is_active) db.pass_products

unfoldable pub pass_covers_performance : PassPurchase → Performance → Bool
pass_covers_performance p performance =
    if not (is_empty p.covered_events) && not (contains performance.event p.covered_events)
    then false
    else if beyond p.valid_from (λ t. ltb performance.starts_at t)
    then false
    else if beyond p.valid_until (λ t. ltb t performance.starts_at)
    then false
    else true

unfoldable pub redeemable_now : PassPurchase → ℕ → Bool
redeemable_now p now =
    if not (is_pass_active p.status)
    then false
    else if beyond p.valid_until (λ t. ltb t now)
    then false
    else true

-- `.distinct()`: the last occurrence of each, as only their number is read.
abbrev pub distinct : List ℕ → List ℕ
distinct [] = []
distinct (x ∷ xs) = let rest = distinct xs in if contains x rest then rest else x ∷ rest

abbrev pub redemptions_of : Db → ℕ → List PassRedemption
redemptions_of db pass = select (λ r. r.pass_purchase == pass) db.pass_redemptions

abbrev pub events_of : List PassRedemption → List ℕ
events_of [] = []
events_of (r ∷ rest) = r.event ∷ events_of rest

-- None is no bound. The subtraction stops at 0, as `max(..., 0)` does.
unfoldable pub remaining_admissions : Db → PassPurchase → Option ℕ
remaining_admissions db p =
    if is_flex p.kind
    then p.credits_remaining
    else if length p.covered_events == 0
    then none
    else some (length p.covered_events - length (distinct (events_of (redemptions_of db p.id))))

-- `credits_by_pass[pass]`
abbrev pub credits_for : ℕ → List PassRedemption → ℕ
credits_for pass rows = sum_by (λ r. r.credits_used) (select (λ r. r.pass_purchase == pass) rows)

abbrev give_back : PassPurchase → ℕ → PassPurchase
give_back p restored = elim p.credits_remaining [
  | none ↦ p
  | some c ↦ if restored == 0 then p else record p { credits_remaining = some (c + restored) }
]

abbrev revive : PassPurchase → PassPurchase
revive p =
    if is_exhausted p.status && ltb 0 (or_else p.credits_remaining 0)
    then record p { status = PassStatus.active }
    else p

-- One turn of the loop over the passes of an order.
abbrev pub restore_purchase : PassPurchase → ℕ → PassPurchase
restore_purchase p restored = revive (give_back p restored)

unfoldable pub restore_redemptions_for_order : Db → ℕ → Db × ℕ
restore_redemptions_for_order db order =
    let redemptions = select (λ r. r.order == order) db.pass_redemptions in
    if is_empty redemptions then (db, 0) else (
      record db {
        pass_redemptions = select (λ r. not (r.order == order)) db.pass_redemptions;
        pass_purchases =
            update_where (λ p. any (λ r. r.pass_purchase == p.id) redemptions)
              (λ p. restore_purchase p (credits_for p.id redemptions)) db.pass_purchases;
      },
      length redemptions,
    )
