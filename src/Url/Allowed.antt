-- ===== src/Url/Allowed.antt =====
-- What `UrlMatcher::is_allowed` grants, and where the patterns of a matcher come from.
use greentic_designer_extens.Base.{
  ℕ, ◌≡◌, ◌↔◌, ◌⊎◌, inl, inr, true, false, Option, none, some, List, Memᴰ, arith, Text, codes,
  text_eq, text_eq_iff, opt_eq, opt_eq_iff, any_found, any_of_mem, mem-collect, if◌then◌else◌,
  Bool-cases, Option-cases,
}
use greentic_designer_extens.Url.Crate.{UrlCrate}
use greentic_designer_extens.Url.Matcher.{
  ParsedPattern, UrlMatcher, host_matches, path_covers, matches, contains_encoded_separator,
  parse_pattern, from_patterns, scheme_allowed, allows, is_allowed,
}
use greentic_designer_extens.Url.Facets.{
  Covers, path_covers_iff, HostFits, host_matches_iff, HasEscape, contains_encoded_separator_iff,
}

-- The four facets of one pattern.
pub record Fits (pat : ParsedPattern) (scheme host : Text) (port : Option ℕ) (path : Text)
    : Type 0 where
  pub same_scheme : pat.scheme ≡ scheme
  pub same_port : pat.port ≡ port
  pub host_fits : HostFits pat.host_rule host
  pub path_fits : Covers pat.path_prefix path

pub matches_sound :
    (pat : ParsedPattern) (scheme host : Text) (port : Option ℕ) (path : Text)
    → matches pat scheme host port path ≡ true
    → Fits pat scheme host port path
unfolding matches
matches_sound pat scheme host port path h =
    let (a, (b, (c, d))) = split in
    record {
      same_scheme = (text_eq_iff _ _).0 a;
      same_port = (opt_eq_iff _ _).0 b;
      host_fits = (host_matches_iff _ _).0 c;
      path_fits = (path_covers_iff _ _).0 d;
    }
  where
    split :
        (text_eq pat.scheme scheme ≡ true)
        × ((opt_eq pat.port port ≡ true)
            × ((host_matches pat.host_rule host ≡ true)
                × (path_covers pat.path_prefix path ≡ true)))
    split = ground arith

pub matches_complete :
    (pat : ParsedPattern) (scheme host : Text) (port : Option ℕ) (path : Text)
    → Fits pat scheme host port path
    → matches pat scheme host port path ≡ true
unfolding matches
matches_complete pat scheme host port path f =
    rw
      (
        (text_eq_iff _ _).1 f.same_scheme,
        (opt_eq_iff _ _).1 f.same_port,
        (host_matches_iff _ _).1 f.host_fits,
      )
      ((path_covers_iff _ _).1 f.path_fits)

module _ (lib : UrlCrate) where
  open lib use {Url, parse, scheme, host_str, port_or_known_default, path}

  -- Why a URL is allowed.
  pub record Grant (m : UrlMatcher) (url : Text) : Type 0 where
    pub parsed : Url
    pub parses : parse url ≡ some parsed
    pub secure :
        (scheme parsed ≡ codes "https") ⊎ ((m.allow_http ≡ true) × (scheme parsed ≡ codes "http"))
    pub host : Text
    pub has_host : host_str parsed ≡ some host
    pub no_escape : ¬ HasEscape (path parsed)
    pub pattern : ParsedPattern
    pub listed : Memᴰ pattern m.patterns
    pub fits : Fits pattern (scheme parsed) host (port_or_known_default parsed) (path parsed)

  scheme_allowed_iff :
      (m : UrlMatcher) (parsed : Url)
      → (scheme_allowed lib m parsed ≡ true) ↔ (
          (scheme parsed ≡ codes "https")
          ⊎ ((m.allow_http ≡ true) × (scheme parsed ≡ codes "http")))
  unfolding scheme_allowed
  scheme_allowed_iff m parsed = ground (
    arith,
    text_eq_iff (scheme parsed) (codes "https"),
    text_eq_iff (scheme parsed) (codes "http"),
  )

  allows_sound :
      (m : UrlMatcher) (url : Text) (parsed : Url) (host : Text)
      → parse url ≡ some parsed
      → host_str parsed ≡ some host
      → scheme_allowed lib m parsed ≡ true
      → allows lib m parsed host ≡ true
      → Grant m url
  unfolding allows
  allows_sound m url parsed host e f secure h =
      elim (Bool-cases (contains_encoded_separator (path parsed))) [
        | inl bad ↦ cc (rw bad at h)
        | inr clean ↦
            let (pat, listed, fits) = any_found _ m.patterns (rw clean at h) in
            record {
              parsed = parsed;
              parses = e;
              secure = (scheme_allowed_iff m parsed).0 secure;
              host = host;
              has_host = f;
              no_escape = λ x. cc (clean, (contains_encoded_separator_iff (path parsed)).1 x);
              pattern = pat;
              listed = listed;
              fits = matches_sound pat _ _ _ _ fits;
            }
      ]

  is_allowed_sound : (m : UrlMatcher) (url : Text) → is_allowed lib m url ≡ true → Grant m url
  unfolding is_allowed
  is_allowed_sound m url h = elim (Option-cases (parse url)) [
    | inl e ↦ cc (rw (e, is_allowed) at h)
    | inr (parsed, e) ↦ hosted parsed e (rw (e, is_allowed) at h)
  ]
    where
      hosted :
          (parsed : Url)
          → parse url ≡ some parsed
          → (if scheme_allowed lib m parsed
              then (elim (host_str parsed) [ none ↦ false | some host ↦ allows lib m parsed host ])
              else false)
            ≡ true
          → Grant m url
      hosted parsed e k = elim (Option-cases (host_str parsed)) [
        | inl f ↦ absurd (ground arith)
        | inr (host, f) ↦ allows_sound m url parsed host e f (ground arith) (ground arith)
      ]

  is_allowed_complete : (m : UrlMatcher) (url : Text) → Grant m url → is_allowed lib m url ≡ true
  unfolding is_allowed
  is_allowed_complete m url g =
      let clean : contains_encoded_separator (path g.parsed) ≡ false =
        elim (Bool-cases (contains_encoded_separator (path g.parsed))) [
          | inl bad ↦ absurd (g.no_escape ((contains_encoded_separator_iff _).0 bad))
          | inr ok ↦ ok
        ] in
      rw (g.parses, (scheme_allowed_iff m g.parsed).1 g.secure, g.has_host, is_allowed)
        (rw (clean, allows)
          (any_of_mem _ g.pattern m.patterns g.listed (matches_complete g.pattern _ _ _ _ g.fits)))

  -- `is_allowed` answers true exactly when the URL parses to an https URL (or an http one, with the
  -- toggle on), names a host, hides no escaped separator in its path, and some pattern of the
  -- matcher has its scheme and port, a host rule that fits its host, and a prefix that covers its
  -- path at a segment boundary.
  pub is_allowed_iff : (m : UrlMatcher) (url : Text) → (is_allowed lib m url ≡ true) ↔ Grant m url
  is_allowed_iff m url = (is_allowed_sound m url, is_allowed_complete m url)

  -- Every pattern that a matcher consults is one of the texts it was built from, parsed.
  pub from_patterns_source :
      (raws : List Text) (pat : ParsedPattern)
      → Memᴰ pat (from_patterns lib raws).patterns
      → (p : Text) × Memᴰ p raws × (parse_pattern lib p ≡ some pat)
  unfolding from_patterns
  from_patterns_source raws pat h = mem-collect (parse_pattern lib) pat raws h
