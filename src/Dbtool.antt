-- ===== src/Dbtool.antt =====
-- The query runner that workload actions start in their Jobs (operator/internal/dbtool/dbtool.go).
-- The parsing of its flags is not modelled: `Options` is what they say.
pub mod Runner
