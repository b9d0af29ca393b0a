-- ===== src/Runtime.antt =====
-- The loaded extensions of the runtime and the capability registry derived from them.
pub mod Defs
pub mod Rebuild
pub mod Advertised
pub mod Invariant
pub mod Evictions
pub mod Reloads
pub mod Downgrades
pub mod Upkeep
