-- ===== src/Orders/Fits.antt =====
-- orders/services.py: exactly which requests set_ga_hold accepts.
use boxoffice.Common.Counting.{find_first-holds}
use boxoffice.Common.{
  sym, ap, subst, ==_iff, ℕ, ◌+◌, ◌≤◌, ◌≡◌, refl, ◌↔◌, Bool, true, false, Option, some, arith, ◌==◌,
  if◌then◌else◌,
}
use boxoffice.Common.Int.{max_ℤ, ◌≤ℤ◌, pos, ◌-ℤ◌, ltb_ℤ}
use boxoffice.Common.Results.{Result, ok, err, err-ne-ok}
use boxoffice.Db.{Db, Performance, PriceTier, GaAllocation, Hold}
use boxoffice.Orders.Availability.{ga_available, active_ga_held_qty, get_allocation}
use boxoffice.Orders.Holds.{set_ga_hold, ga_room}

-- The test of the call, over the integers, is the comparison of the sum.
room_iff :
    (capacity sold held quantity : ℕ)
    → (ltb_ℤ (pos capacity -ℤ pos sold -ℤ pos held) (pos quantity) ≡ false)
      ↔ (sold + held + quantity ≤ capacity)
unfolding ◌-ℤ◌
room_iff capacity sold held quantity = (λ h. ground arith, λ h. ground arith)

-- The page's number stops at 0.
shown_iff :
    (capacity sold held quantity : ℕ)
    → (quantity == 0) ≡ false
    → (sold + held + quantity ≤ capacity)
      ↔ (pos quantity ≤ℤ max_ℤ (pos capacity -ℤ pos sold -ℤ pos held) (pos 0))
unfolding ◌-ℤ◌
shown_iff capacity sold held quantity wanted = (λ h. ground arith, λ h. ground arith)

-- A branch that only errs never accepts, and one that only returns always does.
guarded_iff :
    {E A : Type 0} (short : Bool) (e : E) (a : A)
    → ((r : A) × (◌≡◌ {A = Result E A} (if short then err e else ok a) (ok r))) ↔ (short ≡ false)
guarded_iff true e a = (λ h. absurd (err-ne-ok h.1), λ h. cc)
guarded_iff false e a = (λ h. refl, λ h. (a, refl))

-- A request for one place or more is accepted exactly if it fits, with what is sold and what the
-- other sessions hold at that time, into the performance's capacity.
pub set_ga_hold_iff :
    (db : Db) (organization : ℕ) (performance : Performance) (session_key : ℕ) (user : Option ℕ)
    (tier : PriceTier) (quantity now : ℕ) (a : GaAllocation)
    → (quantity == 0) ≡ false
    → get_allocation db performance.id ≡ some a
    → ((r : Db × Option Hold) × (set_ga_hold db organization performance session_key user tier
            quantity now
          ≡ ok r))
      ↔ (a.sold + active_ga_held_qty db a.performance (some session_key) now + quantity
          ≤ a.capacity)
unfolding set_ga_hold
set_ga_hold_iff db organization performance key user tier quantity now a wanted e =
    let accepted = guarded_iff (ltb_ℤ (ga_room db a key now) (pos quantity)) _ _ in
    let room =
      room_iff a.capacity a.sold (active_ga_held_qty db a.performance (some key) now) quantity in
    rw wanted (rw e (λ h. room.0 (accepted.0 h), λ h. accepted.1 (room.1 h)))

ga_available-found :
    (db : Db) (performance : ℕ) (exclude : Option ℕ) (now : ℕ) (a : GaAllocation)
    → get_allocation db performance ≡ some a
    → ga_available db performance exclude now
      ≡ max_ℤ
          (pos a.capacity -ℤ pos a.sold -ℤ pos (active_ga_held_qty db performance exclude now))
          (pos 0)
unfolding ga_available
ga_available-found db performance exclude now a e = rw (e, ga_available) refl

-- What the page shows is what is accepted: one place or more are granted to a session exactly if they are
-- no more than ga_available shows to it at that time.
pub set_ga_hold-ga_available :
    (db : Db) (organization : ℕ) (performance : Performance) (session_key : ℕ) (user : Option ℕ)
    (tier : PriceTier) (quantity now : ℕ) (a : GaAllocation)
    → (quantity == 0) ≡ false
    → get_allocation db performance.id ≡ some a
    → ((r : Db × Option Hold) × (set_ga_hold db organization performance session_key user tier
            quantity now
          ≡ ok r))
      ↔ (pos quantity ≤ℤ ga_available db performance.id (some session_key) now)
set_ga_hold-ga_available db organization performance key user tier quantity now a wanted e =
    let at =
      (==_iff a.performance performance.id).0
        (find_first-holds (λ a. a.performance == performance.id) db.allocations a e) in
    let held : ℕ → ℕ = λ p. active_ga_held_qty db p (some key) now in
    let fits = set_ga_hold_iff db organization performance key user tier quantity now a wanted e in
    let shown = shown_iff a.capacity a.sold (held performance.id) quantity wanted in
    let same : held a.performance ≡ held performance.id = ap held at in
    rw (ga_available-found db performance.id (some key) now a e) (
      λ h. shown.0 (subst (λ n. a.sold + n + quantity ≤ a.capacity) same (fits.0 h)),
      λ h. fits.1 (subst (λ n. a.sold + n + quantity ≤ a.capacity) (sym same) (shown.1 h)),
    )
