-- ===== src/Payments.antt =====
-- The payments app: amounts for Stripe, and the fulfillment of a paid hold.
pub mod Units
pub mod LineItems
pub mod Fulfill
pub mod PassRedemption
pub mod Purchases
pub mod Checkout
pub mod Refund
