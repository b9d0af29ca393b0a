-- ===== src/Fetch.antt =====
-- crates/greentic-ext-runtime/src/host_state_net.rs: `http::fetch` and its redirect loop.
pub mod Defs
pub mod Redirects
mod Examples
