-- ===== src/Payments/Refund/Once.antt =====
-- payments/services.py's refund_order: an order is refunded once, and frees its inventory.
use boxoffice.Orders.Void.{void_order, live_tickets, is_order_live}
use boxoffice.Orders.Void.Effects.{void_order_idempotent}
use boxoffice.Passes.{restore_redemptions_for_order}
use boxoffice.Payments.Refund.{
  RefundError, is_paid, refund_passes, reverse_order, refund_money, refund_found, refund_order,
  set_status, provider_of, succeeded_payment, sold_a_pass, has_used_pass,
}
use boxoffice.Common.Counting.{find_first-update, find_first-holds}
use boxoffice.Common.{
  ℕ, ◌≡◌, refl, sym, ap, subst, ◌∙◌, inl, inr, Bool, true, false, ◌&&◌, Option, some, [], arith,
  ◌==◌, ==_iff, ==_refl, Bool-cases, Option-cases, select, find_first, update_where,
}
use boxoffice.Common.Text.{Text}
use boxoffice.Common.Results.{Result, ok, ok-injective, err-ne-ok, Result-cases}
use boxoffice.Db.{Db, OrderStatus, Order}

-- The tables that the undoing of redemptions leaves alone.
restore-tickets :
    (db : Db) (order : ℕ) → (restore_redemptions_for_order db order).0.tickets ≡ db.tickets
unfolding restore_redemptions_for_order
restore-tickets db order = ground arith

restore-orders :
    (db : Db) (order : ℕ) → (restore_redemptions_for_order db order).0.orders ≡ db.orders
unfolding restore_redemptions_for_order
restore-orders db order = ground arith

void-orders : (db : Db) (o : Order) → (void_order db o).0.orders ≡ db.orders
unfolding void_order
void-orders db o = refl

passes-tickets : (db : Db) (order : ℕ) → (refund_passes db order).tickets ≡ db.tickets
passes-tickets db order = ground arith

passes-orders : (db : Db) (order : ℕ) → (refund_passes db order).orders ≡ db.orders
passes-orders db order = ground arith

module _ (db : Db) (o : Order) (provider refund_ref : Text) where
  reverse_order-live_tickets : live_tickets (reverse_order db o provider refund_ref) o.id ≡ []
  unfolding reverse_order
  reverse_order-live_tickets =
      let voided = (void_order db o).0 in
      let restored = (restore_redemptions_for_order voided o.id).0 in
      ap (select (is_order_live o.id)) (passes-tickets restored o.id ∙ restore-tickets voided o.id)
      ∙ (void_order_idempotent db o).0

  reverse_order-orders :
      find_first (λ x. x.id == o.id) db.orders ≡ some o
      → find_first (λ x. x.id == o.id) (reverse_order db o provider refund_ref).orders
        ≡ some (set_status OrderStatus.refunded o)
  unfolding reverse_order
  reverse_order-orders found =
      let voided = (void_order db o).0 in
      let restored = (restore_redemptions_for_order voided o.id).0 in
      ap
        (λ os.
          find_first (λ x. x.id == o.id)
            (update_where (λ x. x.id == o.id) (set_status OrderStatus.refunded) os))
        (passes-orders restored o.id ∙ restore-orders voided o.id ∙ void-orders db o)
      ∙ find_first-update (λ x. x.id == o.id) (λ x. x.id == o.id) (set_status OrderStatus.refunded)
          db.orders (λ _. refl)
      ∙ rw (found, ==_refl o.id) refl

returned_true :
    {db db' : Db} → ◌≡◌ {A = Result RefundError (Db × Bool)} (ok (db, false)) (ok (db', true)) → ⊥
returned_true h = cc

module _ (stripe_refund : Text → Option Text) where
  -- What a refund that returns true has written.
  refund_found_lem :
      (db : Db) (o : Order) {db' : Db}
      → refund_found stripe_refund db o ≡ ok (db', true)
      → (refund_ref : Text) × (reverse_order db o
            (provider_of (succeeded_payment db o.id))
            refund_ref
          ≡ db')
  unfolding refund_found
  refund_found_lem db o e = elim (Bool-cases (sold_a_pass db o.id && has_used_pass db o.id)) [
    | inl used ↦ absurd (err-ne-ok (rw (used, refund_found) at e))
    | inr free ↦ elim (Result-cases (refund_money stripe_refund (succeeded_payment db o.id))) [
      | inl (failure, f) ↦ absurd (err-ne-ok (rw (free, f, refund_found) at e))
      | inr (refund_ref, f) ↦
          (refund_ref, ap (λ (x : Db × Bool). x.0) (ok-injective (rw (free, f, refund_found) at e)))
    ]
  ]

  refund_order_lem :
      (db : Db) (order : ℕ) {db' : Db}
      → refund_order stripe_refund db order ≡ ok (db', true)
      → (o : Order) × (find_first (λ x. x.id == order) db.orders ≡ some o)
        × ((refund_ref : Text) × (reverse_order db o
                (provider_of (succeeded_payment db o.id))
                refund_ref
              ≡ db'))
  unfolding refund_order
  refund_order_lem db order e = elim (Option-cases (find_first (λ x. x.id == order) db.orders)) [
    | inl missing ↦ absurd (err-ne-ok (rw (missing, refund_order) at e))
    | inr (o, found) ↦ elim (Bool-cases (is_paid o.status)) [
      | inr unpaid ↦ absurd (returned_true (rw (found, unpaid, refund_order) at e))
      | inl paid ↦ (o, found, refund_found_lem db o (rw (found, paid, refund_order) at e))
    ]
  ]

  refunded_again :
      (db : Db) (order : ℕ) (o : Order)
      → find_first (λ x. x.id == order) db.orders ≡ some o
      → is_paid o.status ≡ false
      → refund_order stripe_refund db order ≡ ok (db, false)
  unfolding refund_order
  refunded_again db order o found unpaid = rw (found, unpaid, refund_order) refl

  -- A refund that succeeds leaves no live ticket on the order, and a second call refunds nothing and
  -- changes nothing.
  pub refund_order_once :
      (db : Db) (order : ℕ) {db' : Db}
      → refund_order stripe_refund db order ≡ ok (db', true)
      → (live_tickets db' order ≡ []) × (refund_order stripe_refund db' order ≡ ok (db', false))
  refund_order_once db order e =
      let (o, found, (refund_ref, out)) = refund_order_lem db order e in
      let provider = provider_of (succeeded_payment db o.id) in
      let same = (==_iff o.id order).0 (find_first-holds (λ x. x.id == order) db.orders o found) in
      let found' = subst (λ k. find_first (λ x. x.id == k) db.orders ≡ some o) (sym same) found in
      let gone =
        subst (λ k. live_tickets (reverse_order db o provider refund_ref) k ≡ []) same
          (reverse_order-live_tickets db o provider refund_ref) in
      let after =
        subst
          (λ k.
            find_first (λ x. x.id == k) (reverse_order db o provider refund_ref).orders
            ≡ some (set_status OrderStatus.refunded o))
          same (reverse_order-orders db o provider refund_ref found') in
      subst
        (λ d. (live_tickets d order ≡ []) × (refund_order stripe_refund d order ≡ ok (d, false)))
        out
        (
          gone,
          refunded_again (reverse_order db o provider refund_ref) order
              (set_status OrderStatus.refunded o) after refl,
        )
