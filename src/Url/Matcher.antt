-- ===== src/Url/Matcher.antt =====
-- crates/greentic-ext-runtime/src/url_matcher.rs: patterns, the matcher and its test of a URL.
-- Warnings are left out; ports are numbers, as the `url` crate hands them over.
use greentic_designer_extens.Base.{
  ℕ, Bool, true, false, ◌&&◌, ◌||◌, Option, none, some, List, [], ◌∷◌, ◌++◌, Text, codes, text_eq,
  opt_eq, strip_prefix, strip_suffix, starts_with, ends_with, trim_end_matches, lower_byte,
  to_ascii_lowercase, eq_ignore_ascii_case, any, collect, length, ltb, ◌==◌, if◌then◌else◌,
}
use greentic_designer_extens.Base.Options.{◌>>=◌}
use greentic_designer_extens.Url.Crate.{UrlCrate}

pub data HostRule : Type 0 where
  exact : Text → HostRule
  wildcard_suffix : Text → HostRule

pub record ParsedPattern : Type 0 where
  pub scheme : Text
  pub host_rule : HostRule
  pub port : Option ℕ
  pub path_prefix : Text

pub record UrlMatcher : Type 0 where
  pub patterns : List ParsedPattern
  pub raw : List Text
  pub allow_http : Bool

-- `UrlMatcher::default()`
abbrev pub default_matcher : UrlMatcher
default_matcher = record { patterns = []; raw = []; allow_http = false }

unfoldable pub with_allow_http : Bool → UrlMatcher → UrlMatcher
with_allow_http allow m = record m { allow_http = allow }

-- The flag and the text with the wildcard label replaced by a placeholder.
unfoldable pub normalize : Text → Bool × Text
normalize stripped = elim (strip_prefix (codes "https://*.") stripped) [
  | some rest ↦ (true, codes "https://__wildcard__." ++ rest)
  | none ↦ elim (strip_prefix (codes "http://*.") stripped) [
    | some rest ↦ (true, codes "http://__wildcard__." ++ rest)
    | none ↦ (false, stripped)
  ]
]

unfoldable pub host_rule_of : Bool → Text → Option HostRule
host_rule_of true host_str = do
  suffix ← strip_prefix (codes "__wildcard__.") host_str
  some (wildcard_suffix suffix)
host_rule_of false host_str = some (exact host_str)

-- `HostRule` against the host of a request.
unfoldable pub host_matches : HostRule → Text → Bool
host_matches (exact h) host = eq_ignore_ascii_case h host
host_matches (wildcard_suffix suffix) host =
    elim (strip_suffix (to_ascii_lowercase suffix) (to_ascii_lowercase host)) [
      | none ↦ false
      | some prefix ↦ ends_with (codes ".") prefix && ltb 1 (length prefix)
    ]

unfoldable pub path_covers : Text → Text → Bool
path_covers path_prefix path =
    if text_eq path_prefix (codes "/") then true else elim (strip_prefix path_prefix path) [
      | none ↦ false
      | some rest ↦ text_eq rest [] || starts_with (codes "/") rest
    ]

-- `ParsedPattern::matches`
unfoldable pub matches : ParsedPattern → Text → Text → Option ℕ → Text → Bool
matches pat scheme host port path =
    text_eq pat.scheme scheme
    && opt_eq pat.port port
    && host_matches pat.host_rule host
    && path_covers pat.path_prefix path

-- The bytes of `%2f` and `%5c`, in either case.
abbrev pub is_separator_escape : ℕ → ℕ → ℕ → Bool
is_separator_escape a b c =
    a == b'%'
    && ((lower_byte b == b'2' && lower_byte c == b'f')
        || (lower_byte b == b'5' && lower_byte c == b'c'))

-- `bytes.windows(3).any(…)`
unfoldable pub contains_encoded_separator : Text → Bool
contains_encoded_separator (a ∷ b ∷ c ∷ s) =
    is_separator_escape a b c || contains_encoded_separator (b ∷ c ∷ s)
contains_encoded_separator _ = false

module _ (lib : UrlCrate) where
  open lib use {Url, parse, scheme, host_str, port_or_known_default, path}

  unfoldable pub pattern_of : Bool → Url → Option ParsedPattern
  unfolding host_rule_of
  pattern_of placeholder_used parsed = do
    host ← host_str parsed
    rule ← host_rule_of placeholder_used host
    some (record {
      scheme = scheme parsed;
      host_rule = rule;
      port = port_or_known_default parsed;
      path_prefix =
          if text_eq (path parsed) [] || text_eq (path parsed) (codes "/")
          then codes "/"
          else path parsed;
    })

  unfoldable pub parse_pattern : Text → Option ParsedPattern
  unfolding pattern_of normalize
  parse_pattern pattern = do
    let (placeholder_used, normalized) = normalize (trim_end_matches (codes "/*") pattern)
    parsed ← parse normalized
    pattern_of placeholder_used parsed

  unfoldable pub from_patterns : List Text → UrlMatcher
  from_patterns patterns = record {
    patterns = collect parse_pattern patterns;
    raw = patterns;
    allow_http = false;
  }

  unfoldable pub scheme_allowed : UrlMatcher → Url → Bool
  scheme_allowed m parsed =
      text_eq (scheme parsed) (codes "https")
      || (m.allow_http && text_eq (scheme parsed) (codes "http"))

  unfoldable pub allows : UrlMatcher → Url → Text → Bool
  allows m parsed host =
      if contains_encoded_separator (path parsed)
      then false
      else any
          (λ pat. matches pat (scheme parsed) host (port_or_known_default parsed) (path parsed))
          m.patterns

  unfoldable pub is_allowed : UrlMatcher → Text → Bool
  unfolding scheme_allowed allows
  is_allowed m url = elim (parse url) [
    | none ↦ false
    | some parsed ↦
        if scheme_allowed m parsed
        then (elim (host_str parsed) [ none ↦ false | some host ↦ allows m parsed host ])
        else false
  ]
