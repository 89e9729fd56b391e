-- ===== src/Go.antt =====
-- The parts of Go's standard library that the operator computes with.
pub mod Duration
pub mod Json
