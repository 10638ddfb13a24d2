-- ===== src/Inventory/Insert.antt =====
-- The inventory's invariant when a hold is added.
use boxoffice.Common.{
  ℕ, ◌+◌, ◌≤◌, ◌<◌, List, refl, All, ◌≡◌, sym, subst, inl, inr, true, false, some, [], ◌∷◌, ◌++◌,
  arith, ◌==◌, if◌then◌else◌, ==_iff, Bool-cases, select, any, count_by,
}
use boxoffice.Common.Keys.{Keyed-weaken}
use boxoffice.Db.{Ticket, Db, GaAllocation, Hold}
use boxoffice.Common.Counting.{
  All-append, sum_by-append, count_by-append, any-append, select-append, count_by-zero,
}
use boxoffice.Orders.Availability.{holds_seat, get_allocation, is_ticketed, held_quantity}
use boxoffice.Orders.Holds.{insert_hold}
use boxoffice.Inventory.{IsSound, IsScoped, ga_held, is_holding}
use boxoffice.Inventory.Same.{All-weaken}
use boxoffice.Inventory.Changes.{is_ga_holding, ga_held-eq}

-- What a new hold must find: its own theater, room for its places, and its seats free.
pub record Fits (now : ℕ) (db : Db) (hold : Hold) : Type 0 where
  pub own : IsScoped db hold
  pub fresh : hold.id ≡ db.next_id
  pub room :
      (a : GaAllocation)
      → get_allocation db hold.performance ≡ some a
      → a.sold + ga_held db hold.performance now + held_quantity hold ≤ a.capacity
  pub free :
      (s : ℕ)
      → holds_seat s hold ≡ true
      → (any (is_holding hold.performance s now) db.holds ≡ false)
        × (is_ticketed db hold.performance s ≡ false)

ga_held-insert :
    (db : Db) (hold : Hold) (p now : ℕ)
    → ga_held (insert_hold db hold) p now
      ≡ ga_held db p now + (if is_ga_holding p now hold then held_quantity hold else 0)
ga_held-insert db hold p now =
    rw
      (
        ga_held-eq db p now,
        ga_held-eq (insert_hold db hold) p now,
        select-append (is_ga_holding p now) db.holds (hold ∷ []),
      )
      (rw
        (sum_by-append held_quantity (select (is_ga_holding p now) db.holds)
          (select (is_ga_holding p now) (hold ∷ [])))
        (ground arith))

-- No row has a pk that was not handed out.
none_beyond :
    (n k : ℕ) → n ≤ k → (hs : List Hold) → All (λ h. h.id < n) hs → count_by (λ h. h.id == k) hs ≡ 0
none_beyond n k le [] a = refl
none_beyond n k le (h ∷ hs) a = ground (arith, none_beyond n k le hs a.1, a.0)

module _ (now : ℕ) (db : Db) (hold : Hold) (v : IsSound now db) (f : Fits now db hold) where
  insert-ga_fits :
      (p : ℕ) (a : GaAllocation)
      → get_allocation db p ≡ some a
      → a.sold + ga_held (insert_hold db hold) p now ≤ a.capacity
  insert-ga_fits p a e = elim (Bool-cases (hold.performance == p)) [
    | inl same ↦
        let eq = (==_iff hold.performance p).0 same in
        let e' = subst (λ k. get_allocation db k ≡ some a) (sym eq) e in
        ground (arith, eq, ga_held-insert db hold p now, f.room a e', v.ga_fits p a e)
    | inr other ↦ ground (arith, other, ga_held-insert db hold p now, v.ga_fits p a e)
  ]

  insert-held_once : (p s : ℕ) → count_by (is_holding p s now) (db.holds ++ hold ∷ []) ≤ 1
  insert-held_once p s =
      rw (count_by-append (is_holding p s now) db.holds (hold ∷ []))
        (ground (arith, v.held_once p s, f.free s, count_by-zero (is_holding p s now) db.holds))

  insert-held_not_sold :
      (p s : ℕ)
      → any (is_holding p s now) (db.holds ++ hold ∷ []) ≡ true
      → is_ticketed db p s ≡ false
  insert-held_not_sold p s e =
      ground
        (arith, any-append (is_holding p s now) db.holds (hold ∷ []), v.held_not_sold p s, f.free s)

  insert-key_once : (k : ℕ) → count_by (λ h. h.id == k) (db.holds ++ hold ∷ []) ≤ 1
  insert-key_once k =
      rw (count_by-append (λ (h : Hold). h.id == k) db.holds (hold ∷ []))
        (elim (Bool-cases (hold.id == k)) [
          | inl same ↦
              let eq = (==_iff hold.id k).0 same in
              rw same (
                omega
                  (arith, none_beyond db.next_id k (omega (arith, eq, f.fresh)) db.holds v.keys))
          | inr other ↦ rw other (omega (arith, v.key_once k))
        ])

  pub insert-IsSound : IsSound now (insert_hold db hold)
  insert-IsSound = record {
    scoped = All-append (IsScoped db) db.holds (hold ∷ []) v.scoped (f.own, tt);
    ga_fits = insert-ga_fits;
    held_once = insert-held_once;
    held_not_sold = insert-held_not_sold;
    sold_once = v.sold_once;
    key_once = insert-key_once;
    tickets_keyed =
        Keyed-weaken (λ (t : Ticket). t.id) db.next_id (db.next_id + 1) (omega arith) db.tickets
          v.tickets_keyed;
    keys =
        All-append (λ h. h.id < db.next_id + 1) db.holds (hold ∷ [])
          (All-weaken db.next_id (db.next_id + 1) (omega arith) db.holds v.keys)
          (omega (arith, f.fresh), tt);
  }
