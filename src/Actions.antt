-- ===== src/Actions.antt =====
-- The failure-injection primitives (operator/internal/actions).
pub mod Action
pub mod Holder
pub mod Scale
pub mod DeployImage
pub mod Names
pub mod Workload
pub mod ChaosMesh
pub mod DbExec
pub mod Registry
