-- ===== src/Services/Catalog.antt =====
-- The product catalog (services/product-catalog/main.go) and its variant that renders cards for each
-- page (variants/gc-pressure/src/main.go).
pub mod Products
pub mod Handlers
pub mod Pages
pub mod GcPressure
