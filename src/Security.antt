-- ===== src/Security.antt =====
-- src/app/security.
pub mod Whitelist
pub mod Tests
