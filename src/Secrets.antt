-- ===== src/Secrets.antt =====
-- The gate before the secrets backend.
pub mod Defs
pub mod Granted
pub mod Access
mod Examples
