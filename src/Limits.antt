-- ===== src/Limits.antt =====
-- crates/greentic-ext-runtime/src/limits.rs: timeouts, epoch deadlines and the growth budget.
pub mod Defs
pub mod Budget
pub mod Deadline
mod Examples
