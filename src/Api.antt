-- ===== src/Api.antt =====
-- The REST API (operator/internal/api/server.go). A response is its status and what its body says;
-- the embedded UI, the routing table and the HTTP server around the handlers are not modelled.
pub mod Summary
pub mod Handlers
