-- ===== src/Dispatch.antt =====
-- The calls from the host into an extension.
pub mod Guest
pub mod Resolved
pub mod Guardrail
pub mod Design
pub mod Roles
pub mod Deploy
pub mod Targets
pub mod Knowledge
pub mod Bundle
pub mod Composer
pub mod Called
pub mod Versions
pub mod Invoked
pub mod Unknown
mod Examples
