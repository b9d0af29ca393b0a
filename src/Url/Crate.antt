-- ===== src/Url/Crate.antt =====
-- What the program uses of the `url` crate: an interface, whose functions are parameters.
use greentic_designer_extens.Base.{ℕ, Option, Text}

-- `url::Host`. An address is kept as its number.
pub data Host : Type 0 where
  domain : Text → Host
  ipv4 : ℕ → Host
  ipv6 : ℕ → Host

pub record UrlCrate : Type 1 where
  pub Url : Type 0
  pub parse : Text → Option Url
  pub as_str : Url → Text
  pub scheme : Url → Text
  pub host_str : Url → Option Text
  pub host : Url → Option Host
  pub port_or_known_default : Url → Option ℕ
  pub path : Url → Text
  pub join : Url → Text → Option Url
  -- `set_query(None)`, `set_fragment(None)`, `set_password(None)` and `set_username("")`.
  pub without_query : Url → Url
  pub without_fragment : Url → Url
  pub without_password : Url → Url
  pub without_username : Url → Url
