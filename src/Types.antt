-- ===== src/Types.antt =====
-- The types at the boundary between an extension and its host, and the maps between them.
pub mod Wit
pub mod Defs
pub mod Maps
pub mod Names
pub mod Wire
mod Examples
