-- ===== src/Services/Fulfillment.antt =====
-- The fulfillment service (services/fulfillment-service/main.go): it consumes order events, reserves
-- each item's stock, records a shipment and publishes it.
pub mod Outside
pub mod Recorded
pub mod Orders
pub mod Startup
