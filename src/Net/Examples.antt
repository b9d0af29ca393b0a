-- ===== src/Net/Examples.antt =====
-- The effective matcher on concrete declarations, after the tests of net_permissions.rs and
-- http_scheme_policy.rs.
use greentic_designer_extens.Base.{
  ◌≡◌, ◌↔◌, true, List, [], ◌∷◌, Text, codes, trim_end_matches, replace,
}
use greentic_designer_extens.Url.Sample.{sample}
use greentic_designer_extens.Url.Matcher.{
  UrlMatcher, with_allow_http, host_matches, path_covers, normalize, parse_pattern, from_patterns,
  is_allowed, matches, contains_encoded_separator,
}
use greentic_designer_extens.Net.Policy.{normalize_all, classify, effective_url_matcher}
use greentic_designer_extens.Net.Ceiling.{EffectiveGrant, effective_url_matcher_iff}

effective : Unit {0}
unfolding effective_url_matcher with_allow_http classify is_allowed matches host_matches path_covers
    contains_encoded_separator from_patterns parse_pattern trim_end_matches replace normalize
    normalize_all
effective = tt

abbrev mixed : List Text
mixed =
    codes "http://127.0.0.1/*" ∷ codes "https://api.example.com/*" ∷ codes "http://evil.com/*" ∷ []

abbrev operator : UrlMatcher
operator =
    from_patterns sample (codes "https://api.example.com/*" ∷ codes "https://unused.example/*" ∷ [])

effective_url_matcher_iff_example :
    (is_allowed sample
        (effective_url_matcher sample mixed operator)
        (codes "https://api.example.com/x")
      ≡ true)
    ↔ EffectiveGrant sample mixed operator (codes "https://api.example.com/x")
effective_url_matcher_iff_example =
    effective_url_matcher_iff sample mixed operator (codes "https://api.example.com/x") (λ e. cc)
