-- ===== src/Watch.antt =====
-- The hot-reload watcher.
pub mod Defs
pub mod Locate
pub mod Walk
pub mod Discovery
pub mod Scan
pub mod Rescan
pub mod Vanished
pub mod Events
pub mod Runs
mod Examples
mod Scanning
