-- ===== src/Verification.antt =====
-- The verification of src/lib/verification.
pub mod Facts
pub mod Baseline
pub mod Verify
mod Tests
