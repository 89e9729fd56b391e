-- ===== src/Services/LoadGenerator.antt =====
-- The load generator (services/load-generator/main.go): its settings, the requests that simulated
-- users make, and the pool of workers that makes them at a rate.
pub mod Settings
pub mod Gateway
pub mod Flows
pub mod Scenarios
pub mod Pool
pub mod Startup
