-- ===== src/Inventory/Holds.antt =====
-- orders/services.py's hold calls keep the inventory's invariant.
use boxoffice.Common.{
  ℕ, ◌+◌, ◌≤◌, ◌≡◌, refl, sym, ◌∙◌, inl, inr, true, false, not, ◌&&◌, ◌||◌, Option, some, List, [],
  ◌∷◌, arith, ◌==◌, ==_iff, Bool-cases, Option-cases, is_key, is_some, All,
}
use boxoffice.Common.Int.{pos, ◌-ℤ◌, ltb_ℤ}
use boxoffice.Common.Results.{ok, OnOk, OnOk-ok}
use boxoffice.Db.{Db, Performance, PriceTier, GaAllocation, Hold}
use boxoffice.Common.Results.{some-injective}
use boxoffice.Common.Counting.{select-select, sum_by-select-le, find_first-holds}
use boxoffice.Orders.Availability.{is_active, get_allocation, held_quantity, active_ga_held_qty}
use boxoffice.Orders.Holds.{
  clear_session_hold, is_session_hold, release_hold_by_id, set_ga_hold, ga_hold, ga_room,
}
use boxoffice.Inventory.{IsSound, IsScoped, ga_held}
use boxoffice.Inventory.Changes.{is_ga_holding, delete-IsSound}
use boxoffice.Inventory.Insert.{Fits, insert-IsSound}

pub clear-IsSound :
    (now : ℕ) (db : Db) (organization performance session_key : ℕ)
    → IsSound now db
    → IsSound now (clear_session_hold db organization performance session_key)
unfolding clear_session_hold
clear-IsSound now db organization performance session_key v =
    delete-IsSound (λ h. not (is_session_hold organization performance session_key h)) now db v

-- Releasing by pk keeps the invariant, whatever pk the request names.
pub release_hold_by_id-IsSound :
    (now : ℕ) (db : Db) (organization session_key : ℕ) (hold_id : Option ℕ)
    → IsSound now db
    → IsSound now (release_hold_by_id db organization session_key hold_id)
unfolding release_hold_by_id
release_hold_by_id-IsSound now db organization session_key hold_id v =
    elim (Bool-cases (is_key hold_id 0 || not (is_some hold_id))) [
      | inl e ↦ rw e v
      | inr e ↦ rw e (
          delete-IsSound
            (λ h. not (
              h.organization == organization
              && h.session_key == session_key
              && is_key hold_id h.id))
            now db v)
    ]

-- What other sessions hold on a performance is all that is left once the session's own is cleared.
module _ (now : ℕ) (db : Db) (organization performance key : ℕ)
    (org : organization ≡ (db.performance performance).organization) where
  others :
      (hs : List Hold)
      → All (IsScoped db) hs
      → All
          (λ h.
            (not (is_session_hold organization performance key h)
                && is_ga_holding performance now h)
              ≡ true
            → (h.performance == performance
                && is_some h.quantity
                && is_active now h
                && not (h.session_key == key))
              ≡ true)
          hs
  others [] sc = tt
  others (h ∷ hs) sc = (λ e. ground (arith, sc.0, org), others hs sc.1)

  ga_held-clear-le :
      All (IsScoped db) db.holds
      → ga_held (clear_session_hold db organization performance key) performance now
        ≤ active_ga_held_qty db performance (some key) now
  unfolding ga_held clear_session_hold
  ga_held-clear-le sc =
      rw select-select (sum_by-select-le held_quantity _ _ db.holds (others db.holds sc))

-- The test of set_ga_hold, over the integers, is the sum over the naturals.
room-le :
    (capacity sold held quantity : ℕ)
    → ltb_ℤ (pos capacity -ℤ pos sold -ℤ pos held) (pos quantity) ≡ false
    → sold + held + quantity ≤ capacity
unfolding ◌-ℤ◌
room-le capacity sold held quantity h = ground arith

module _ (now : ℕ) (db : Db) (organization : ℕ) (performance : Performance) (key : ℕ)
    (user : Option ℕ) (org : organization ≡ (db.performance performance.id).organization)
    (v : IsSound now db) where
  cleared : Db
  unfolding clear_session_hold
  cleared = clear_session_hold db organization performance.id key

  ga_hold-room :
      (tier : PriceTier) (quantity : ℕ) (a : GaAllocation)
      → get_allocation db performance.id ≡ some a
      → ltb_ℤ (ga_room db a key now) (pos quantity) ≡ false
      → (a' : GaAllocation) → get_allocation db performance.id ≡ some a'
      → a'.sold + ga_held cleared performance.id now + quantity ≤ a'.capacity
  unfolding cleared
  ga_hold-room tier quantity a e enough a' e' =
      let same = some-injective (sym e ∙ e') in
      let of_p =
        (==_iff a.performance performance.id).0
          (find_first-holds (λ a. a.performance == performance.id) db.allocations a e) in
      let room =
        room-le a.capacity a.sold (active_ga_held_qty db a.performance (some key) now) quantity
          enough in
      let left = ga_held-clear-le now db organization performance.id key org v.scoped in
      ground (arith, same, of_p, room, left)

  ga_hold-Fits :
      (tier : PriceTier) (quantity : ℕ) (a : GaAllocation)
      → get_allocation db performance.id ≡ some a
      → ltb_ℤ (ga_room db a key now) (pos quantity) ≡ false
      → Fits now cleared (ga_hold cleared organization performance key user tier quantity now)
  unfolding cleared
  ga_hold-Fits tier quantity a e enough = record {
    own = org;
    fresh = refl;
    room = ga_hold-room tier quantity a e enough;
    free = λ s h. cc;
  }

  set_ga_hold-OnOk :
      (tier : PriceTier) (quantity : ℕ)
      → OnOk (IsSound now) (set_ga_hold db organization performance key user tier quantity now)
  unfolding set_ga_hold cleared
  set_ga_hold-OnOk tier quantity = elim (Bool-cases (quantity == 0)) [
    | inl none_wanted ↦ rw none_wanted (clear-IsSound now db organization performance.id key v)
    | inr some_wanted ↦ rw some_wanted (elim (Option-cases (get_allocation db performance.id)) [
      | inl missing ↦ rw missing tt
      | inr (a, e) ↦ rw e (elim (Bool-cases (ltb_ℤ (ga_room db a key now) (pos quantity))) [
        | inl short ↦ rw short tt
        | inr enough ↦ rw enough (
            insert-IsSound now cleared _ (clear-IsSound now db organization performance.id key v)
              (ga_hold-Fits tier quantity a e enough))
      ])
    ])
  ]

-- A successful set_ga_hold keeps the invariant: the new hold fits beside what is sold and what others
-- hold.
pub set_ga_hold-IsSound :
    (now : ℕ) (db : Db) (organization : ℕ) (performance : Performance) (session_key : ℕ)
    (user : Option ℕ) (tier : PriceTier) (quantity : ℕ) {db' : Db} {hold : Option Hold}
    → organization ≡ (db.performance performance.id).organization
    → IsSound now db
    → set_ga_hold db organization performance session_key user tier quantity now ≡ ok (db', hold)
    → IsSound now db'
set_ga_hold-IsSound now db organization performance key user tier quantity org v e =
    OnOk-ok (IsSound now) _
      (set_ga_hold-OnOk now db organization performance key user org v tier quantity) e
