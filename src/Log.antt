-- ===== src/Log.antt =====
-- The log lines of a guest.
pub mod Defs
pub mod Clamp
mod Examples
