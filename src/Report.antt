-- ===== src/Report.antt =====
-- The report of the metadata that the tools of an extension leave out.
pub mod Defs
pub mod Gaps
mod Examples
