-- ===== src/Sage.antt =====
-- The server of the boardroom application: sage-halpin/server.
pub mod Store
pub mod Accounts
pub mod Routes
pub mod Net
pub mod Tests
