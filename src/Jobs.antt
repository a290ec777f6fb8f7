-- ===== src/Jobs.antt =====
-- The background jobs of src/lib/jobs.
pub mod Queue
pub mod Runner
mod Tests
