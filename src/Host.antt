-- ===== src/Host.antt =====
-- The state that a dispatch runs in.
pub mod Defs
pub mod Reach
mod Examples
