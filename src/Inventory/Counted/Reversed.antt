-- ===== src/Inventory/Counted/Reversed.antt =====
-- A scan of scanning/services.py and the refund of payments/services.py: the sold places still count the
-- live general-admission tickets.
use boxoffice.Common.{
  ℕ, ◌<◌, ◌≡◌, refl, ap, ◌∙◌, inl, inr, Bool, true, ◌&&◌, Option, some, List, [], ◌∷◌, arith, ◌==◌,
  ==_refl, find_first, update_where, All, Bool-cases, Option-cases,
}
use boxoffice.Common.Text.{Text}
use boxoffice.Common.Updates.{only, All-update, count_by-update}
use boxoffice.Common.Results.{OnOk, Result-cases}
use boxoffice.Db.{Db, OrderStatus, Order, TicketStatus, Ticket}
use boxoffice.Orders.Tokens.{verify_ticket_sig}
use boxoffice.Orders.Void.{void_order}
use boxoffice.Scanning.{use_ticket, save_used, has_token, redeem_ticket}
use boxoffice.Scanning.Once.{redeem_found-cases}
use boxoffice.Passes.{restore_redemptions_for_order}
use boxoffice.Payments.Refund.{
  is_paid, sold_a_pass, has_used_pass, set_status, refund_passes, record_refund, reverse_order,
  refund_money, refund_found, refund_order, provider_of, succeeded_payment,
}
use boxoffice.Inventory.{IsSound}
use boxoffice.Inventory.Counted.{is_ga_live, IsOf, IsCounted, SameSales, same-IsCounted}
use boxoffice.Inventory.Counted.Voided.{kept, void_order-IsCounted}

module _ (now : ℕ) (db : Db) (ticket : Ticket) (scanned_by at : ℕ) (test : Ticket → Bool)
    (found : find_first test db.tickets ≡ some ticket) (unused : ticket.status ≡ TicketStatus.valid)
    (v : IsSound now db) (c : IsCounted db) where
  as_live :
      (p : ℕ) (ts : List Ticket)
      → All (λ t. (t.id == ticket.id) ≡ true → t ≡ ticket) ts
      → All
          (λ t.
            (t.id == ticket.id) ≡ true → is_ga_live p (use_ticket at scanned_by t) ≡ is_ga_live p t)
          ts
  as_live p [] h = tt
  as_live p (t ∷ ts) h = (
    λ e.
        let valid : t.status ≡ TicketStatus.valid =
          ap (λ (t : Ticket). t.status) (h.0 e) ∙ unused in
        rw valid refl,
    as_live p ts h.1,
  )

  save_used-IsCounted : IsCounted (save_used db ticket at scanned_by)
  save_used-IsCounted = record {
    counted = λ p a e.
        rw
          (count_by-update (λ t. t.id == ticket.id) (use_ticket at scanned_by) (is_ga_live p)
            db.tickets
            (as_live p db.tickets (
              only test (λ t. t.id == ticket.id) db.tickets ticket found (==_refl ticket.id)
                (v.tickets_keyed.once ticket.id))))
          (c.counted p a e);
    placed =
        All-update (λ t. t.id == ticket.id) (use_ticket at scanned_by) (IsOf db.orders) db.tickets
          (kept (IsOf db.orders) (λ t. t.id == ticket.id) (use_ticket at scanned_by) db.tickets
            (λ t h. h))
          c.placed;
    tickets_below =
        All-update (λ t. t.id == ticket.id) (use_ticket at scanned_by) (λ t. t.order < db.next_id)
          db.tickets
          (kept (λ t. t.order < db.next_id) (λ t. t.id == ticket.id) (use_ticket at scanned_by)
            db.tickets (λ t h. h))
          c.tickets_below;
    orders_below = c.orders_below;
  }

pub redeem_ticket-IsCounted :
    (secret_key : Text) (hmac_sha256 : Text → Text → List ℕ) (now : ℕ) (db : Db) (organization : ℕ)
    (token : Text) (sig : Option Text) (scanned_by at : ℕ)
    → IsSound now db
    → IsCounted db
    → IsCounted (redeem_ticket secret_key hmac_sha256 db organization token sig scanned_by at).0
unfolding redeem_ticket
redeem_ticket-IsCounted secret_key hmac_sha256 now db organization token sig scanned_by at v c =
    elim (Bool-cases (verify_ticket_sig secret_key hmac_sha256 token sig organization)) [
      | inr forged ↦ rw forged c
      | inl genuine ↦ elim (Option-cases (find_first (has_token organization token) db.tickets)) [
        | inl missing ↦ rw (genuine, missing) c
        | inr (ticket, found) ↦ elim (redeem_found-cases db ticket at scanned_by) [
          | inl same ↦ rw (genuine, found, same.0) c
          | inr (saved, unused) ↦
              rw (genuine, found, saved)
                (save_used-IsCounted now db ticket scanned_by at (has_token organization token)
                  found unused v c)
        ]
      ]
    ]

restore-same : (db : Db) (order : ℕ) → SameSales db (restore_redemptions_for_order db order).0
unfolding restore_redemptions_for_order
restore-same db order = record {
  allocations = ground arith;
  tickets = ground arith;
  orders = ground arith;
  next_id = ground arith;
}

refund_passes-same : (db : Db) (order : ℕ) → SameSales db (refund_passes db order)
refund_passes-same db order = record {
  allocations = ground arith;
  tickets = ground arith;
  orders = ground arith;
  next_id = ground arith;
}

kept_orders :
    (P : Order → Type 0) (q : Order → Bool) (f : Order → Order) (os : List Order)
    → ((o : Order) → P o → P (f o))
    → All (λ o. q o ≡ true → P o → P (f o)) os
kept_orders P q f [] h = tt
kept_orders P q f (o ∷ os) h = (λ _. h o, kept_orders P q f os h)

IsOf-refunded :
    (k : ℕ) (os : List Order) (ts : List Ticket)
    → All (IsOf os) ts
    → All (IsOf (update_where (λ x. x.id == k) (set_status OrderStatus.refunded) os)) ts
IsOf-refunded k os [] a = tt
IsOf-refunded k os (t ∷ ts) a = (
  All-update (λ x. x.id == k) (set_status OrderStatus.refunded)
      (λ (o : Order). t.order ≡ o.id → o.performance ≡ some t.performance) os
      (kept_orders (λ (o : Order). t.order ≡ o.id → o.performance ≡ some t.performance)
        (λ x. x.id == k) (set_status OrderStatus.refunded) os (λ o h. h))
      a.0,
  IsOf-refunded k os ts a.1,
)

record_refund-IsCounted :
    (db : Db) (o : Order) (provider refund_ref : Text)
    → IsCounted db
    → IsCounted (record_refund db o provider refund_ref)
record_refund-IsCounted db o provider refund_ref c = record {
  counted = c.counted;
  placed = IsOf-refunded o.id db.orders db.tickets c.placed;
  tickets_below = c.tickets_below;
  orders_below =
      All-update (λ x. x.id == o.id) (set_status OrderStatus.refunded)
        (λ (o : Order). o.id < db.next_id) db.orders
        (kept_orders (λ (o : Order). o.id < db.next_id) (λ x. x.id == o.id)
          (set_status OrderStatus.refunded) db.orders (λ o h. h))
        c.orders_below;
}

module _ (db : Db) (c : IsCounted db) where
  reverse_order-IsCounted :
      (o : Order) (test : Order → Bool) (provider refund_ref : Text)
      → find_first test db.orders ≡ some o
      → IsCounted (reverse_order db o provider refund_ref)
  unfolding reverse_order
  reverse_order-IsCounted o test provider refund_ref found =
      let voided = (void_order db o).0 in
      let restored = (restore_redemptions_for_order voided o.id).0 in
      record_refund-IsCounted (refund_passes restored o.id) o provider refund_ref (
        same-IsCounted restored (refund_passes restored o.id) (refund_passes-same restored o.id) (
          same-IsCounted voided restored (restore-same voided o.id)
            (void_order-IsCounted db o test found c)))

  module _ (stripe_refund : Text → Option Text) where
    refund_found-IsCounted :
        (o : Order) (test : Order → Bool)
        → find_first test db.orders ≡ some o
        → OnOk IsCounted (refund_found stripe_refund db o)
    unfolding refund_found
    refund_found-IsCounted o test found =
        elim (Bool-cases (sold_a_pass db o.id && has_used_pass db o.id)) [
          | inl used ↦ rw used tt
          | inr free ↦
              rw free
                (elim (Result-cases (refund_money stripe_refund (succeeded_payment db o.id))) [
                  | inl (failure, e) ↦ rw e tt
                  | inr (refund_ref, e) ↦ rw e (
                      reverse_order-IsCounted o test (provider_of (succeeded_payment db o.id))
                        refund_ref found)
                ])
        ]

    pub refund_order-IsCounted : (order : ℕ) → OnOk IsCounted (refund_order stripe_refund db order)
    unfolding refund_order
    refund_order-IsCounted order = elim (Option-cases (find_first (λ o. o.id == order) db.orders)) [
      | inl missing ↦ rw (missing, refund_order) tt
      | inr (o, found) ↦ elim (Bool-cases (is_paid o.status)) [
        | inr unpaid ↦ rw (found, unpaid, refund_order) c
        | inl paid ↦
            rw (found, paid, refund_order) (refund_found-IsCounted o (λ o. o.id == order) found)
      ]
    ]
