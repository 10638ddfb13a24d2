-- ===== src/Orders/Void/Effects.antt =====
-- orders/services.py's void_order, seen from its caller: what it leaves, and a second call.
use boxoffice.Orders.Void.{is_order_live, live_tickets, void_ticket, free_ga, void_order}
use boxoffice.Common.{
  ℕ, ◌≡◌, refl, Bool, Option, none, some, List, [], ◌∷◌, arith, length, select, update_where,
}
use boxoffice.Db.{Db, GaAllocation, Order, Ticket}

none_live :
    (order : ℕ) (ts : List Ticket)
    → select (is_order_live order) (update_where (is_order_live order) void_ticket ts) ≡ []
none_live order [] = refl
none_live order (t ∷ ts) = ground (arith, none_live order ts)

update_none {ℓ} :
    {A : Type ℓ} (p : A → Bool) (f : A → A) (xs : List A)
    → select p xs ≡ []
    → update_where p f xs ≡ xs
update_none p f [] e = refl
update_none p f (x ∷ xs) e = ground (arith, update_none p f xs)

free_ga-zero : (performance : Option ℕ) (xs : List GaAllocation) → free_ga performance 0 xs ≡ xs
free_ga-zero none xs = refl
free_ga-zero (some p) xs = refl

-- A first call leaves no live ticket on the order and returns how many there were; a second call
-- returns 0 and changes nothing, so inventory is freed only once.
pub void_order_idempotent :
    (db : Db) (order : Order)
    → let (db', voided) = void_order db order in
      (live_tickets db' order.id ≡ [])
      × (voided ≡ length (live_tickets db order.id))
      × (void_order db' order ≡ (db', 0))
unfolding void_order
void_order_idempotent db order =
    let gone = none_live order.id db.tickets in
    (
      gone,
      refl,
      rw (gone, free_ga-zero, update_none (is_order_live order.id) void_ticket _ gone) refl,
    )
