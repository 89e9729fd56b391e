-- ===== src/Services.antt =====
-- The demo services that the operator's scenarios disturb (services/), those written in Go.
pub mod Text
pub mod Waiting
pub mod Fulfillment
pub mod Catalog
pub mod Recommendation
pub mod LoadGenerator
