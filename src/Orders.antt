-- ===== src/Orders.antt =====
-- The orders app: holds, their money, promo codes and donations on a hold, voiding an order.
pub mod Availability
pub mod Holds
pub mod Fits
pub mod Money
pub mod Cart
pub mod Void
pub mod Tokens
