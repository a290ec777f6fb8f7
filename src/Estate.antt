-- ===== src/Estate.antt =====
-- The bulk import of customers: src/lib/estate.
pub mod Csv
pub mod Tests
