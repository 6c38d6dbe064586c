-- ===== src/Catalog.antt =====
-- The product catalogs: src/catalog/.
pub mod Provider
pub mod Inventory
pub mod Caches
pub mod Live
