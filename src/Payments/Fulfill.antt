-- ===== src/Payments/Fulfill.antt =====
-- payments/services.py: fulfill_hold and its halves _fulfill_ga and _fulfill_reserved, with the unique
-- constraints of orders/models.py that an insert can meet. An error rolls the transaction back.
-- `new_token` stands for the random tokens: it gives the token of the row with a given pk.
use boxoffice.Common.{
  ℕ, zero, suc, ◌+◌, Bool, false, not, ◌&&◌, ◌||◌, Option, none, some, List, [], ◌∷◌, ◌++◌, ltb,
  leb, ◌==◌, if◌then◌else◌, select, any, update_where, order_by, is_empty,
}
use boxoffice.Common.Int.{ℤ, pos, ltb_ℤ}
use boxoffice.Common.Text.{Text, text_eq, is_blank}
use boxoffice.Common.Results.{Result, ok, err, ◌>>=◌, ◌>>◌, raise_if}
use boxoffice.Db.{
  Db, GaAllocation, HoldSeat, Hold, OrderStatus, Order, ItemKind, OrderItem, TicketStatus, Ticket,
  PaymentStatus, GuestAccount,
}
use boxoffice.Promotions.{record_redemption}
use boxoffice.Guests.{get_or_create_for_email, record_marketing_opt_in}
use boxoffice.Orders.Availability.{get_allocation, is_ticketed, seat_ids_of}
use boxoffice.Orders.Money.{
  ga_parts, ga_unit_amount, hold_discount, hold_donation, hold_grand_total,
}

pub data FulfillError : Type 0 where
  hold_gone : FulfillError
  availability_changed : List ℕ → FulfillError
  -- GAAllocation.DoesNotExist, and a unique constraint that an insert violates.
  allocation_missing integrity_error : FulfillError
  donation_data pass_data tenant_mismatch : FulfillError

-- The keyword arguments that the callers pass.
pub record Purchase : Type 0 where
  pub buyer_email : Text
  pub buyer_name : Text
  pub payment_ref : Text
  pub provider : Text
  pub stripe_checkout_session_id : Option Text
  pub marketing_opt_in : Bool

abbrev pub has_session : ℕ → Text → Order → Bool
has_session organization session o =
    o.organization == organization
    && (elim o.stripe_checkout_session_id [ none ↦ false | some s ↦ text_eq s session ])

-- unique_stripe_checkout_session_per_org, from which null and blank ids are left out.
abbrev pub session_taken : Db → ℕ → Option Text → Bool
session_taken db organization none = false
session_taken db organization (some session) =
    not (is_blank session) && any (has_session organization session) db.orders

-- `token = CharField(unique=True)` of Order and of Ticket.
abbrev pub has_order_token : Text → Order → Bool
has_order_token token o = text_eq o.token token

abbrev pub bears_token : Text → Ticket → Bool
bears_token token t = text_eq t.token token

abbrev pub order_clashes : Db → Order → Bool
order_clashes db order =
    session_taken db order.organization order.stripe_checkout_session_id
    || any (has_order_token order.token) db.orders

-- `Order.objects.create(...)`
unfoldable pub create_order : Db → Order → Result FulfillError Db
create_order db order =
    if order_clashes db order
    then err FulfillError.integrity_error
    else ok (record db { orders = db.orders ++ order ∷ []; next_id = db.next_id + 1 })

abbrev pub create_item : Db → OrderItem → Db
create_item db item = record db { items = db.items ++ item ∷ [] }

abbrev pub ticket_item : Order → Option ℕ → Option ℕ → Option ℕ → ℕ → ℤ → OrderItem
ticket_item order tier zone seat quantity amount = record {
  order = order.id;
  kind = ItemKind.ticket;
  price_tier = tier;
  pricing_zone = zone;
  donation_campaign = none;
  pass_product = none;
  seat = seat;
  quantity = quantity;
  unit_amount = amount;
}

abbrev pub seat_taken : Db → ℕ → Option ℕ → Bool
seat_taken db performance none = false
seat_taken db performance (some seat) = is_ticketed db performance seat

abbrev pub sell_places : ℕ → ℕ → List GaAllocation → List GaAllocation
sell_places performance n =
    update_where (λ a. a.performance == performance) (λ a. record a { sold = a.sold + n })

-- unique_live_ticket_per_performance_seat, and the token's own constraint
abbrev pub ticket_clashes : Db → Ticket → Bool
ticket_clashes db t = seat_taken db t.performance t.seat || any (bears_token t.token) db.tickets

abbrev pub create_ticket : Db → Ticket → Result FulfillError Db
create_ticket db t =
    if ticket_clashes db t
    then err FulfillError.integrity_error
    else ok (record db { tickets = db.tickets ++ t ∷ []; next_id = db.next_id + 1 })

abbrev pub seat_item : Order → HoldSeat → OrderItem
seat_item order hs = ticket_item order hs.price_tier hs.pricing_zone (some hs.seat) 1 hs.unit_amount

abbrev pub donation_item : Order → ℤ → Option ℕ → OrderItem
donation_item order amount campaign = record {
  order = order.id;
  kind = ItemKind.donation;
  price_tier = none;
  pricing_zone = none;
  donation_campaign = campaign;
  pass_product = none;
  seat = none;
  quantity = 1;
  unit_amount = amount;
}

abbrev pub add_donation : Db → Hold → Order → Db
add_donation db hold order =
    if ltb_ℤ (pos 0) (hold_donation hold)
    then create_item db (donation_item order (hold_donation hold) hold.donation_campaign)
    else db

abbrev pub create_payment : Db → Order → Purchase → Db
create_payment db order purchase = record db {
  payments =
      db.payments
      ++ record {
        order = order.id;
        provider = purchase.provider;
        amount = order.total;
        status = PaymentStatus.succeeded;
        provider_ref = purchase.payment_ref;
      }
        ∷ [];
}

abbrev pub redeem_promo : Db → Hold → Db
redeem_promo db hold = elim hold.promo_code [
  | none ↦ db
  | some promo ↦ record db { promos = record_redemption promo db.promos }
]

abbrev pub delete_hold : Db → Hold → Db
delete_hold db hold = record db { holds = select (λ h. not (h.id == hold.id)) db.holds }

-- The guest of the order, with the consent that the buyer gave.
abbrev pub link_guest : Db → ℕ → Purchase → ℕ → Db × Option GuestAccount
link_guest db organization purchase now =
    let (db', guest, created) =
      get_or_create_for_email db organization (some purchase.buyer_email) purchase.buyer_name in
    (if purchase.marketing_opt_in then record_marketing_opt_in db' guest now else db', guest)

abbrev pub attach_guest : Db → Hold → Purchase → ℕ → Db × Option GuestAccount
attach_guest db hold = link_guest db hold.organization

abbrev pub guest_id : Option GuestAccount → Option ℕ
guest_id none = none
guest_id (some g) = some g.id

-- The order of a hold, from the tables before the call and the tables with the guest.
abbrev pub order_of : (ℕ → Text) → Db → Db → Hold → Purchase → Option GuestAccount → Order
order_of new_token db db' hold purchase guest = record {
  id = db'.next_id;
  organization = hold.organization;
  performance = some hold.performance;
  buyer_email = purchase.buyer_email;
  buyer_name = purchase.buyer_name;
  guest = guest_id guest;
  promo_code_text = hold.promo_code_text;
  discount_amount = hold_discount hold;
  total = hold_grand_total db hold;
  status = OrderStatus.paid;
  stripe_checkout_session_id = purchase.stripe_checkout_session_id;
  token = new_token db'.next_id;
}

-- What follows the tickets: the gift, the payment, the redemption, and the end of the hold.
abbrev pub settle : Db → Hold → Order → Purchase → Db
settle db hold order purchase =
    delete_hold (redeem_promo (create_payment (add_donation db hold order) order purchase) hold)
      hold

module _ (new_token : ℕ → Text) where
  abbrev pub new_ticket : ℕ → Hold → Order → Option ℕ → Ticket
  new_ticket id hold order seat = record {
    id = id;
    organization = hold.organization;
    order = order.id;
    performance = hold.performance;
    seat = seat;
    holder_name = order.buyer_name;
    token = new_token id;
    status = TicketStatus.valid;
    used_at = none;
    scanned_by = none;
  }

  -- `for _ in range(hold.quantity)`, each ticket with the next pk.
  abbrev pub ga_tickets : ℕ → Hold → Order → ℕ → List Ticket
  ga_tickets zero hold order id = []
  ga_tickets (suc n) hold order id =
      new_ticket id hold order none ∷ ga_tickets n hold order (id + 1)

  -- A new token is in the table already, or is given twice.
  abbrev pub tokens_clash : List Ticket → List Ticket → Bool
  tokens_clash rows [] = false
  tokens_clash rows (t ∷ new) =
      any (bears_token t.token) rows || any (bears_token t.token) new || tokens_clash rows new

  -- The tables after the writes of a general-admission sale.
  abbrev pub with_ga : Db → Hold → Order → ℕ → ℕ → Db
  with_ga db hold order tier q = record db {
    items =
        db.items ++ ticket_item order (some tier) none none q (ga_unit_amount db hold tier) ∷ [];
    tickets = db.tickets ++ ga_tickets q hold order db.next_id;
    allocations = sell_places hold.performance q db.allocations;
    next_id = db.next_id + q;
  }

  -- `Ticket.objects.bulk_create(...)` with what is written around it.
  abbrev pub mint_ga : Db → Hold → Order → ℕ → ℕ → Result FulfillError Db
  mint_ga db hold order tier q =
      if tokens_clash db.tickets (ga_tickets q hold order db.next_id)
      then err FulfillError.integrity_error
      else ok (with_ga db hold order tier q)

  unfoldable pub fulfill_ga : Db → Hold → Order → ℕ → ℕ → Result FulfillError Db
  fulfill_ga db hold order tier q = elim (get_allocation db hold.performance) [
    | none ↦ err FulfillError.allocation_missing
    | some a ↦
        if ltb a.capacity (a.sold + q)
        then err (FulfillError.availability_changed [])
        else mint_ga db hold order tier q
  ]

  -- The loop over the seats of the hold.
  unfoldable pub mint_seats : Db → Hold → Order → List HoldSeat → Result FulfillError Db
  mint_seats db hold order [] = ok db
  mint_seats db hold order (hs ∷ rest) =
      elim (create_ticket (create_item db (seat_item order hs))
        (new_ticket db.next_id hold order (some hs.seat))) [
          | err e ↦ err e
          | ok db' ↦ mint_seats db' hold order rest
        ]

  unfoldable pub fulfill_reserved : Db → Hold → Order → Result FulfillError Db
  unfolding mint_seats
  fulfill_reserved db hold order =
      let hold_seats = order_by (λ hs. hs.seat) hold.hold_seats in
      let ticketed = select (is_ticketed db hold.performance) (seat_ids_of hold_seats) in
      if is_empty ticketed
      then mint_seats db hold order hold_seats
      else err (FulfillError.availability_changed ticketed)

  unfoldable pub fulfill_tickets : Db → Hold → Order → Result FulfillError Db
  unfolding fulfill_ga fulfill_reserved
  fulfill_tickets db hold order = elim (ga_parts hold) [
    | some (tier, q) ↦ fulfill_ga db hold order tier q
    | none ↦ fulfill_reserved db hold order
  ]

  unfoldable pub fulfill_hold : Db → Hold → Purchase → ℕ → Result FulfillError (Db × Order)
  unfolding fulfill_tickets create_order
  fulfill_hold db hold purchase now = do
    raise_if (leb hold.expires_at now) FulfillError.hold_gone
    let (with_guest, guest) = attach_guest db hold purchase now
    let order = order_of new_token db with_guest hold purchase guest
    with_order ← create_order with_guest order
    with_tickets ← fulfill_tickets with_order hold order
    ok (settle with_tickets hold order purchase, order)
