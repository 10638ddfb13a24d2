-- ===== src/Events.antt =====
-- The events app: price resolution (events/pricing.py) and pricing zones (events/zones.py).
pub mod Pricing
pub mod Zones
