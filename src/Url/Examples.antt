-- ===== src/Url/Examples.antt =====
-- The matcher on concrete patterns, after tests/url_matcher.rs.
use greentic_designer_extens.Base.{◌≡◌, refl, ◌↔◌, true, false, [], ◌∷◌, codes, trim_end_matches}
use greentic_designer_extens.Url.Sample.{sample}
use greentic_designer_extens.Url.Matcher.{
  UrlMatcher, wildcard_suffix, host_matches, path_covers, parse_pattern, from_patterns, is_allowed,
  matches, contains_encoded_separator,
}
use greentic_designer_extens.Url.Facets.{HostFits, host_matches_iff}
use greentic_designer_extens.Url.Allowed.{Grant, is_allowed_iff}

matching : Unit {0}
unfolding is_allowed matches host_matches path_covers contains_encoded_separator from_patterns
    parse_pattern trim_end_matches
matching = tt

abbrev api : UrlMatcher
api = from_patterns sample (codes "https://*.example.com/v1/*" ∷ [])

allowed_tests :
    (is_allowed sample api (codes "https://a.example.com/v1/chat") ≡ true)
    × (is_allowed sample api (codes "https://A.EXAMPLE.com/v1") ≡ true)
    × (is_allowed sample api (codes "https://example.com/v1") ≡ false)
    × (is_allowed sample api (codes "https://a.example.com/v1evil") ≡ false)
    × (is_allowed sample api (codes "https://a.example.com/v1/..%2f") ≡ false)
    × (is_allowed sample api (codes "http://a.example.com/v1") ≡ false)
unfolding matching
allowed_tests = (refl, refl, refl, refl, refl, refl)

is_allowed_iff_example :
    (is_allowed sample api (codes "https://a.example.com/v1/chat") ≡ true)
    ↔ Grant sample api (codes "https://a.example.com/v1/chat")
is_allowed_iff_example = is_allowed_iff sample api (codes "https://a.example.com/v1/chat")

host_matches_iff_example :
    (host_matches (wildcard_suffix (codes "example.com")) (codes "evil.example.com") ≡ true)
    ↔ HostFits (wildcard_suffix (codes "example.com")) (codes "evil.example.com")
host_matches_iff_example =
    host_matches_iff (wildcard_suffix (codes "example.com")) (codes "evil.example.com")
