-- ===== src/Core.antt =====
-- The pure policies of src/lib/core.
pub mod Autonomy
pub mod Evidence
pub mod Opportunity
mod Tests
