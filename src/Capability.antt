-- ===== src/Capability.antt =====
-- crates/greentic-ext-runtime/src/capability.rs: offers, resolution and dependency cycles.
pub mod Contract
pub mod Registry
pub mod Resolution
pub mod Cycles
mod Graph
mod Search
mod Latest
pub mod Sample
mod Examples
