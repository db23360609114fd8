-- ===== src/Core.antt =====
-- src/app/core: the typed errors, the settings and the prices.
pub mod Errors
pub mod Settings
pub mod Pricing
pub mod Effects
