-- ===== src/Execution.antt =====
-- The execution engine of src/lib/execution.
pub mod Types
pub mod Store
pub mod Task
pub mod Authorise
pub mod Loop
pub mod Run
pub mod Control
mod Tests
