-- ===== src/Benefits.antt =====
-- The benefits ledger of src/lib/benefits.
pub mod Ledger
pub mod Summary
mod Tests
