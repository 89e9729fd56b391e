-- ===== src/Controller.antt =====
-- The MaintenanceJob controller (operator/internal/controller).
pub mod Helpers
pub mod Status
pub mod Start
pub mod Activate
pub mod Revert
pub mod Delete
pub mod Reconcile
pub mod Sweeper
pub mod Invariant
pub mod Refinement
