-- ===== src/Oauth.antt =====
-- The calls of an extension to the OAuth broker.
pub mod Defs
pub mod Endpoint
pub mod Requests
mod Examples
