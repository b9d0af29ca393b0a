-- ===== src/Net/Loopback.antt =====
-- Plain http and `classify`: the matcher and the classifier each normalise a pattern in their own
-- way, and where the two texts are the same, plain http reaches loopback patterns only.
use greentic_designer_extens.Base.{
  ℕ, ◌*◌, ◌≤◌, ◌<◌, to_ascii_lowercase, ◌≡◌, Text, codes, trim_end_matches, some,
}
use greentic_designer_extens.Url.Crate.{UrlCrate, Host, domain, ipv4, ipv6}
use greentic_designer_extens.Url.Matcher.{normalize}
use greentic_designer_extens.Net.Policy.{normalize_all}

-- `classify` and the matcher parse the same text for this pattern.
abbrev pub Agrees : Text → Type 0
Agrees p = normalize_all p ≡ (normalize (trim_end_matches (codes "/*") p)).1

-- The loopback names and addresses: `localhost` in either case, 127.0.0.0/8 and ::1.
pub data IsLoopback : Host → Type 0 where
  local_name : (d : Text) → to_ascii_lowercase d ≡ codes "localhost" → IsLoopback (domain d)
  v4 : (ip : ℕ) → 127 * 16_777_216 ≤ ip → ip < 128 * 16_777_216 → IsLoopback (ipv4 ip)
  v6 : (ip : ℕ) → ip ≡ 1 → IsLoopback (ipv6 ip)

module _ (lib : UrlCrate) where
  open lib use {Url, parse, scheme, host_str, port_or_known_default, path, host}

  -- The text of the pattern is an http URL of a loopback host.
  pub record IsLocal (p : Text) : Type 0 where
    pub target : Url
    pub parses : parse (normalize (trim_end_matches (codes "/*") p)).1 ≡ some target
    pub plain : scheme target ≡ codes "http"
    pub at : Host
    pub has_host : host target ≡ some at
    pub is_local : IsLoopback at
