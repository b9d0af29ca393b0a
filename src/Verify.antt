-- ===== src/Verify.antt =====
-- The load gate: signature, whole-archive ledger, and the pin of the publisher's key.
pub mod Sdk
pub mod Defs
pub mod Walk
pub mod Paths
pub mod Spelled
pub mod Ledger
pub mod Signature
mod Examples
