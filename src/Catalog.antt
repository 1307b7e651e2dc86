-- ===== src/Catalog.antt =====
-- backend/src/modules/catalog/domain: what a product costs now, and how its stock is shown.
pub mod Price
pub mod Stock
