-- ===== src/Llm.antt =====
-- The gate before the language-model port.
pub mod Defs
pub mod Roles
pub mod Batch
pub mod Complete
mod Examples
