-- ===== src/Url.antt =====
-- crates/greentic-ext-runtime/src/url_matcher.rs and the `url` crate that it calls.
pub mod Crate
pub mod Matcher
pub mod Facets
pub mod Allowed
pub mod Sample
mod Examples
