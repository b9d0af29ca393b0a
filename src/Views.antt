-- ===== src/Views.antt =====
-- The views that an extension contributes, and where their files are.
pub mod Defs
pub mod Placed
mod Examples
