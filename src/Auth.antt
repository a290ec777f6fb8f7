-- ===== src/Auth.antt =====
-- Who may do what: src/lib/auth.
pub mod Roles
pub mod Sessions
pub mod Attempts
mod Tests
