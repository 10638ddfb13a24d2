-- ===== src/Inventory/Refunds.antt =====
-- payments/services.py's refund_order keeps the inventory's invariant: what it voids is freed, and the
-- rest of its writes are not on the inventory.
use boxoffice.Orders.Void.{void_order}
use boxoffice.Passes.{restore_redemptions_for_order}
use boxoffice.Payments.Refund.{
  is_paid, sold_a_pass, has_used_pass, refund_passes, record_refund, reverse_order, refund_money,
  refund_found, refund_order, provider_of, succeeded_payment,
}
use boxoffice.Inventory.{IsSound}
use boxoffice.Inventory.Same.{SameInventory, same-IsSound}
use boxoffice.Inventory.Voids.{void_order-IsSound}
use boxoffice.Common.{
  ℕ, refl, inl, inr, ◌&&◌, Option, arith, ◌==◌, Bool-cases, Option-cases, find_first,
}
use boxoffice.Common.Text.{Text}
use boxoffice.Common.Results.{OnOk, Result-cases}
use boxoffice.Db.{Db, Order}

restore-same : (db : Db) (order : ℕ) → SameInventory db (restore_redemptions_for_order db order).0
unfolding restore_redemptions_for_order
restore-same db order = record {
  performance = ground arith;
  allocations = ground arith;
  holds = ground arith;
  tickets = ground arith;
  next_id = ground arith;
}

refund_passes-same : (db : Db) (order : ℕ) → SameInventory db (refund_passes db order)
refund_passes-same db order = record {
  performance = ground arith;
  allocations = ground arith;
  holds = ground arith;
  tickets = ground arith;
  next_id = ground arith;
}

record_refund-same :
    (db : Db) (o : Order) (provider refund_ref : Text)
    → SameInventory db (record_refund db o provider refund_ref)
record_refund-same db o provider refund_ref = record {
  performance = refl;
  allocations = refl;
  holds = refl;
  tickets = refl;
  next_id = omega arith;
}

module _ (now : ℕ) (db : Db) (v : IsSound now db) where
  reverse_order-IsSound :
      (o : Order) (provider refund_ref : Text)
      → IsSound now (reverse_order db o provider refund_ref)
  unfolding reverse_order
  reverse_order-IsSound o provider refund_ref =
      let voided = (void_order db o).0 in
      let restored = (restore_redemptions_for_order voided o.id).0 in
      same-IsSound now (refund_passes restored o.id)
        (record_refund (refund_passes restored o.id) o provider refund_ref)
        (record_refund-same (refund_passes restored o.id) o provider refund_ref)
        (same-IsSound now restored (refund_passes restored o.id) (refund_passes-same restored o.id)
          (same-IsSound now voided restored (restore-same voided o.id)
            (void_order-IsSound now db o v)))

  module _ (stripe_refund : Text → Option Text) where
    refund_found-OnOk : (o : Order) → OnOk (IsSound now) (refund_found stripe_refund db o)
    unfolding refund_found
    refund_found-OnOk o = elim (Bool-cases (sold_a_pass db o.id && has_used_pass db o.id)) [
      | inl used ↦ rw used tt
      | inr free ↦
          rw free (elim (Result-cases (refund_money stripe_refund (succeeded_payment db o.id))) [
            | inl (failure, e) ↦ rw e tt
            | inr (refund_ref, e) ↦
                rw e (reverse_order-IsSound o (provider_of (succeeded_payment db o.id)) refund_ref)
          ])
    ]

    pub refund_order-OnOk : (order : ℕ) → OnOk (IsSound now) (refund_order stripe_refund db order)
    unfolding refund_order
    refund_order-OnOk order = elim (Option-cases (find_first (λ o. o.id == order) db.orders)) [
      | inl missing ↦ rw (missing, refund_order) tt
      | inr (o, found) ↦ elim (Bool-cases (is_paid o.status)) [
        | inr unpaid ↦ rw (found, unpaid, refund_order) v
        | inl paid ↦ rw (found, paid, refund_order) (refund_found-OnOk o)
      ]
    ]
