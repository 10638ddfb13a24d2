-- ===== src/Inventory/Changes.antt =====
-- The inventory's invariant under the passing of time, the deletion of holds, and the saving of a
-- hold with other money on it.
use boxoffice.Common.{
  ℕ, ◌<◌, ◌≤◌, ◌≡◌, refl, Bool, true, false, not, ◌&&◌, List, [], ◌∷◌, arith, ◌==◌, &&_split,
  is_some, select, any, sum_by, All, count_by,
}
use boxoffice.Db.{Db, Hold}
use boxoffice.Common.Counting.{
  All-select, sum_by-select-le, count_by-le, any_mono, select-select, count_by-select, any-select,
}
use boxoffice.Orders.Availability.{is_active, held_quantity}
use boxoffice.Inventory.{IsSound, IsScoped, ga_held, is_holding}

-- The test of `ga_held`.
abbrev pub is_ga_holding : ℕ → ℕ → Hold → Bool
is_ga_holding p now h = h.performance == p && is_some h.quantity && is_active now h && not false

pub ga_held-eq :
    (db : Db) (p now : ℕ)
    → ga_held db p now ≡ sum_by held_quantity (select (is_ga_holding p now) db.holds)
unfolding ga_held
ga_held-eq db p now = refl

module _ (now later : ℕ) (le : now ≤ later) where
  holding_before :
      (p s : ℕ) (hs : List Hold)
      → All (λ h. is_holding p s later h ≡ true → is_holding p s now h ≡ true) hs
  holding_before p s [] = tt
  holding_before p s (h ∷ hs) = (λ e. ground arith, holding_before p s hs)

  ga_holding_before :
      (p : ℕ) (hs : List Hold)
      → All (λ h. is_ga_holding p later h ≡ true → is_ga_holding p now h ≡ true) hs
  ga_holding_before p [] = tt
  ga_holding_before p (h ∷ hs) = (λ e. ground arith, ga_holding_before p hs)

  -- Holds only run out: what is sound now stays sound as long as nothing happens.
  pub later-IsSound : (db : Db) → IsSound now db → IsSound later db
  later-IsSound db v = record {
    scoped = v.scoped;
    ga_fits = λ p a e.
        let less =
          sum_by-select-le held_quantity (is_ga_holding p later) (is_ga_holding p now) db.holds
            (ga_holding_before p db.holds) in
        omega (arith, v.ga_fits p a e, ga_held-eq db p now, ga_held-eq db p later, less);
    held_once = λ p s. omega (
      arith,
      v.held_once p s,
      count_by-le (is_holding p s later) (is_holding p s now) db.holds
          (holding_before p s db.holds),
    );
    held_not_sold = λ p s e. v.held_not_sold p s (
        any_mono (is_holding p s later) (is_holding p s now) db.holds (holding_before p s db.holds)
          e);
    sold_once = v.sold_once;
    key_once = v.key_once;
    keys = v.keys;
    tickets_keyed = v.tickets_keyed;
  }

module _ (keep : Hold → Bool) where
  kept : (q : Hold → Bool) (hs : List Hold) → All (λ h. (keep h && q h) ≡ true → q h ≡ true) hs
  kept q [] = tt
  kept q (h ∷ hs) = (λ e. (&&_split (keep h) (q h) e).1, kept q hs)

  pub count_by-kept :
      (q : Hold → Bool) (hs : List Hold) → count_by q (select keep hs) ≤ count_by q hs
  count_by-kept q hs = rw count_by-select (count_by-le _ q hs (kept q hs))

  pub any-kept :
      (q : Hold → Bool) (hs : List Hold) → any q (select keep hs) ≡ true → any q hs ≡ true
  any-kept q hs e = any_mono _ q hs (kept q hs) (rw any-select at e)

  pub sum_by-kept :
      (q : Hold → Bool) (hs : List Hold)
      → sum_by held_quantity (select q (select keep hs)) ≤ sum_by held_quantity (select q hs)
  sum_by-kept q hs = rw select-select (sum_by-select-le held_quantity _ q hs (kept q hs))

  -- A deletion of holds frees inventory and takes none.
  pub delete-IsSound :
      (now : ℕ) (db : Db)
      → IsSound now db
      → IsSound now (record db { holds = select keep db.holds })
  delete-IsSound now db v =
      let db' = record db { holds = select keep db.holds } in
      record {
        scoped = All-select (IsScoped db) keep db.holds v.scoped;
        ga_fits = λ p a e. omega (
          arith,
          v.ga_fits p a e,
          ga_held-eq db p now,
          ga_held-eq db' p now,
          sum_by-kept (is_ga_holding p now) db.holds,
        );
        held_once =
            λ p s. omega (arith, v.held_once p s, count_by-kept (is_holding p s now) db.holds);
        held_not_sold = λ p s e. v.held_not_sold p s (any-kept (is_holding p s now) db.holds e);
        sold_once = v.sold_once;
        key_once = λ k. omega (arith, v.key_once k, count_by-kept (λ h. h.id == k) db.holds);
        keys = All-select (λ h. h.id < db.next_id) keep db.holds v.keys;
        tickets_keyed = v.tickets_keyed;
      }
