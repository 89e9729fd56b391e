-- ===== src/Tests.antt =====
-- Examples: a small cluster, and each theorem with hypotheses applied in it.
pub mod Sandbox
pub mod Scaling
pub mod Images
pub mod Jobs
pub mod Passes
pub mod Runs
pub mod Faults
pub mod Refinement
pub mod Fulfillment
pub mod Catalog
pub mod Load
