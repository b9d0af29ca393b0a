-- ===== src/Load.antt =====
-- From a directory to a loaded extension: the load gate, then the component.
pub mod Defs
pub mod Vouched
pub mod Kept
pub mod Registered
mod Examples
