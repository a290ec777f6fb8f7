-- ===== src/Gtm.antt =====
-- src/lib/gtm: the commercial loop's recovery from failures and its decisions for a person.
pub mod Recovery
pub mod Governance
pub mod Outreach
pub mod Tests
