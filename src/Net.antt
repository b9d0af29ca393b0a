-- ===== src/Net.antt =====
-- crates/greentic-ext-runtime/src/http_scheme_policy.rs and net_permissions.rs: which URLs an
-- extension may reach.
pub mod Policy
pub mod Ceiling
pub mod Loopback
mod Examples
