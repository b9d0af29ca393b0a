-- ===== src/Net/Policy.antt =====
-- http_scheme_policy.rs (`classify`) and net_permissions.rs (`effective_url_matcher`).
-- Warnings are left out.
use greentic_designer_extens.Base.{
  ℕ, ◌/◌, ◌^◌, ◌==◌, Bool, true, false, Option, none, some, List, [], ◌∷◌, Text, codes, text_eq,
  replace, trim_end_matches, eq_ignore_ascii_case, any, keep, if◌then◌else◌,
}
use greentic_designer_extens.Url.Crate.{UrlCrate, Host, domain, ipv4, ipv6}
use greentic_designer_extens.Url.Matcher.{UrlMatcher, from_patterns, with_allow_http}

pub data HttpClass : Type 0 where
  loopback : HttpClass
  public : HttpClass
  other : HttpClass

-- `Ipv4Addr::is_loopback` (127.0.0.0/8) and `Ipv6Addr::is_loopback` (::1).
abbrev is_loopback_ipv4 : ℕ → Bool
is_loopback_ipv4 ip = ip / 2 ^ 24 == 127

abbrev is_loopback_ipv6 : ℕ → Bool
is_loopback_ipv6 ip = ip == 1

unfoldable pub class_of_host : Option Host → HttpClass
class_of_host none = public
class_of_host (some (domain d)) =
    if eq_ignore_ascii_case d (codes "localhost") then loopback else public
class_of_host (some (ipv4 ip)) = if is_loopback_ipv4 ip then loopback else public
class_of_host (some (ipv6 ip)) = if is_loopback_ipv6 ip then loopback else public

-- The text that `classify` parses.
unfoldable pub normalize_all : Text → Text
normalize_all pattern =
    replace (codes "://*.") (codes "://__wildcard__.") (trim_end_matches (codes "/*") pattern)

module _ (lib : UrlCrate) where
  open lib use {parse, scheme, host}

  unfoldable pub classify : Text → HttpClass
  unfolding class_of_host normalize_all
  classify pattern = elim (parse (normalize_all pattern)) [
    | none ↦ other
    | some url ↦ if text_eq (scheme url) (codes "http") then class_of_host (host url) else other
  ]

  -- The closure of `patterns.retain`, with the flag that it sets.
  unfoldable pub retain_http : List Text → Bool → List Text × Bool
  retain_http [] allow = ([], allow)
  retain_http (p ∷ ps) allow = elim (classify p) [
    | loopback ↦ let (kept, flag) = retain_http ps true in (p ∷ kept, flag)
    | public ↦ retain_http ps allow
    | other ↦ let (kept, flag) = retain_http ps allow in (p ∷ kept, flag)
  ]

-- `ceiling` is `None` for an operator list that is empty.
unfoldable pub within_ceiling : List Text → Text → Bool
within_ceiling [] p = true
within_ceiling (a ∷ allowed) p = any (λ x. text_eq x p) (a ∷ allowed)

unfoldable pub effective_url_matcher : UrlCrate → List Text → UrlMatcher → UrlMatcher
unfolding retain_http within_ceiling
effective_url_matcher lib [] override_matcher = override_matcher
effective_url_matcher lib (d ∷ ds) override_matcher =
    let patterns = keep (within_ceiling override_matcher.raw) (d ∷ ds) in
    let (kept, allow_loopback_http) = retain_http lib patterns false in
    with_allow_http allow_loopback_http (from_patterns lib kept)
