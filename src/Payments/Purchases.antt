-- ===== src/Payments/Purchases.antt =====
-- payments/services.py: the purchases without a hold, fulfill_donation and fulfill_pass_purchase.
use boxoffice.Payments.Fulfill.{
  FulfillError, Purchase, create_order, create_item, create_payment, link_guest, guest_id,
  donation_item,
}
use boxoffice.Common.{ℕ, ◌+◌, not, Option, none, some, [], ◌∷◌, ◌++◌}
use boxoffice.Common.Int.{ℤ, pos}
use boxoffice.Common.Text.{Text}
use boxoffice.Common.Results.{Result, ok, ◌>>=◌, ◌>>◌, raise_if}
use boxoffice.Db.{
  Db, OrderStatus, Order, ItemKind, OrderItem, GuestAccount, PassStatus, PassProduct, PassPurchase,
}

-- An order that reserves no performance.
abbrev pub plain_order : (ℕ → Text) → Db → ℕ → Purchase → Option GuestAccount → ℤ → Order
plain_order new_token db organization purchase guest total = record {
  id = db.next_id;
  organization = organization;
  performance = none;
  buyer_email = purchase.buyer_email;
  buyer_name = purchase.buyer_name;
  guest = guest_id guest;
  promo_code_text = [];
  discount_amount = pos 0;
  total = total;
  status = OrderStatus.paid;
  stripe_checkout_session_id = purchase.stripe_checkout_session_id;
  token = new_token db.next_id;
}

unfoldable pub fulfill_donation :
    (ℕ → Text) → Db → ℕ → ℤ → Option ℕ → Purchase → ℕ → Result FulfillError (Db × Order)
unfolding create_order
fulfill_donation new_token db organization amount campaign purchase now = do
  let (with_guest, guest) = link_guest db organization purchase now
  let order = plain_order new_token with_guest organization purchase guest amount
  with_order ← create_order with_guest order
  ok (
    create_payment (create_item with_order (donation_item order amount campaign)) order purchase,
    order,
  )

abbrev pub pass_item : Order → PassProduct → OrderItem
pass_item order product = record {
  order = order.id;
  kind = ItemKind.pass;
  price_tier = none;
  pricing_zone = none;
  donation_campaign = none;
  pass_product = some product.id;
  seat = none;
  quantity = 1;
  unit_amount = product.price;
}

-- The terms of the product, frozen.
abbrev pub new_pass : ℕ → Order → PassProduct → PassPurchase
new_pass id order product = record {
  id = id;
  organization = order.organization;
  product = product.id;
  guest = order.guest;
  order = order.id;
  kind = product.kind;
  credit_count = product.credit_count;
  credits_remaining = product.credit_count;
  valid_from = product.valid_from;
  valid_until = product.valid_until;
  covered_events = product.events;
  status = PassStatus.active;
}

abbrev pub create_pass : Db → Order → PassProduct → Db
create_pass db order product = record db {
  pass_purchases = db.pass_purchases ++ new_pass db.next_id order product ∷ [];
  next_id = db.next_id + 1;
}

unfoldable pub fulfill_pass_purchase :
    (ℕ → Text) → Db → ℕ → PassProduct → Purchase → ℕ → Result FulfillError (Db × Order)
unfolding create_order
fulfill_pass_purchase new_token db organization product purchase now = do
  raise_if (not product.is_active) FulfillError.pass_data
  let (with_guest, guest) = link_guest db organization purchase now
  let order = plain_order new_token with_guest organization purchase guest product.price
  with_order ← create_order with_guest order
  let with_pass = create_pass (create_item with_order (pass_item order product)) order product
  ok (create_payment with_pass order purchase, order)
