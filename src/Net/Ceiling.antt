-- ===== src/Net/Ceiling.antt =====
-- The operator's list is a ceiling, and plain http is granted for loopback only.
use greentic_designer_extens.Base.{
  ◌≡◌, refl, ◌≢◌, ◌↔◌, ◌⊎◌, inl, inr, Bool, true, false, List, [], ◌∷◌, Memᴰ, arith, Text, codes,
  text_eq_iff, keep, mem-keep, mem-keep_of, any_found, any_of_mem, mem-collect_of, some, any,
  text_eq, ◌||◌,
}
use greentic_designer_extens.Url.Crate.{UrlCrate}
use greentic_designer_extens.Url.Matcher.{
  ParsedPattern, UrlMatcher, parse_pattern, from_patterns, with_allow_http, is_allowed,
}
use greentic_designer_extens.Url.Facets.{HasEscape}
use greentic_designer_extens.Url.Allowed.{Fits, is_allowed_iff, from_patterns_source}
use greentic_designer_extens.Net.Policy.{
  loopback, public, classify, retain_http, within_ceiling, effective_url_matcher,
}

-- The operator set no list, or it holds the pattern.
abbrev pub Within : List Text → Text → Type 0
Within raw p = (raw ≡ []) ⊎ Memᴰ p raw

within_ceiling_iff : (raw : List Text) (p : Text) → (within_ceiling raw p ≡ true) ↔ Within raw p
unfolding within_ceiling
within_ceiling_iff [] p = (λ _. inl refl, λ _. refl)
within_ceiling_iff (a ∷ raw) p = (to, from)
  where
    to : any (λ x. text_eq x p) (a ∷ raw) ≡ true → Within (a ∷ raw) p
    to h =
        let (x, i, e) = any_found (λ x. text_eq x p) (a ∷ raw) h in
        inr (mem_eq x i ((text_eq_iff x p).0 e))
      where
        mem_eq : (x : Text) → Memᴰ x (a ∷ raw) → x ≡ p → Memᴰ p (a ∷ raw)
        mem_eq x i e = rw (← e) i

    from : Within (a ∷ raw) p → any (λ x. text_eq x p) (a ∷ raw) ≡ true
    from (inl e) = absurd (cc)
    from (inr i) = any_of_mem (λ x. text_eq x p) p (a ∷ raw) i ((text_eq_iff p p).1 refl)

module _ (lib : UrlCrate) where
  open lib use {Url, parse, scheme, host_str, port_or_known_default, path}

  abbrev not_public : Text → Bool
  not_public p = elim (classify lib p) [ public ↦ false | _ ↦ true ]

  abbrev is_loopback : Text → Bool
  is_loopback p = elim (classify lib p) [ loopback ↦ true | _ ↦ false ]

  -- The loop keeps what is not public and turns the flag on at the first loopback pattern.
  retain_http-keep :
      (ps : List Text) (allow : Bool)
      → retain_http lib ps allow ≡ (keep not_public ps, allow || any is_loopback ps)
  unfolding retain_http
  retain_http-keep [] allow = ground arith
  retain_http-keep (p ∷ ps) allow =
      ground (arith, retain_http-keep ps allow, retain_http-keep ps true)

  -- What the effective matcher consults, and its toggle.
  effective_parts :
      (declared : List Text) (m : UrlMatcher)
      → declared ≢ []
      → effective_url_matcher lib declared m
        ≡ with_allow_http
            (any is_loopback (keep (within_ceiling m.raw) declared))
            (from_patterns lib (keep not_public (keep (within_ceiling m.raw) declared)))
  unfolding effective_url_matcher
  effective_parts [] m ne = absurd (ne refl)
  effective_parts (d ∷ ds) m ne = rw (retain_http-keep (keep (within_ceiling m.raw) (d ∷ ds)) false)

  -- A pattern that the extension declared and the operator's ceiling leaves standing.
  pub record Declared (declared : List Text) (m : UrlMatcher) (p : Text) : Type 0 where
    pub declares : Memᴰ p declared
    pub within : Within m.raw p

  -- Why the effective matcher allows a URL.
  pub record EffectiveGrant (declared : List Text) (m : UrlMatcher) (url : Text) : Type 0 where
    pub parsed : Url
    pub parses : parse url ≡ some parsed
    pub secure :
        (scheme parsed ≡ codes "https")
        ⊎ (((q : Text) × Declared declared m q × (classify lib q ≡ loopback))
            × (scheme parsed ≡ codes "http"))
    pub host : Text
    pub has_host : host_str parsed ≡ some host
    pub no_escape : ¬ HasEscape (path parsed)
    pub source : Text
    pub declared_source : Declared declared m source
    pub private_source : classify lib source ≢ public
    pub pattern : ParsedPattern
    pub parsed_source : parse_pattern lib source ≡ some pattern
    pub fits : Fits pattern (scheme parsed) host (port_or_known_default parsed) (path parsed)

  toggle_sound :
      (declared : List Text) (m : UrlMatcher)
      → any is_loopback (keep (within_ceiling m.raw) declared) ≡ true
      → (q : Text) × Declared declared m q × (classify lib q ≡ loopback)
  toggle_sound declared m h =
      let (q, i, e) = any_found is_loopback (keep (within_ceiling m.raw) declared) h in
      let (j, w) = mem-keep (within_ceiling m.raw) q declared i in
      (q, record { declares = j; within = (within_ceiling_iff m.raw q).0 w }, ground arith)

  toggle_complete :
      (declared : List Text) (m : UrlMatcher) (q : Text)
      → Declared declared m q
      → classify lib q ≡ loopback
      → any is_loopback (keep (within_ceiling m.raw) declared) ≡ true
  toggle_complete declared m q d e =
      any_of_mem is_loopback q (keep (within_ceiling m.raw) declared)
        (mem-keep_of _ q declared d.declares ((within_ceiling_iff m.raw q).1 d.within))
        (ground arith)

  kept_sound :
      (declared : List Text) (m : UrlMatcher) (p : Text)
      → Memᴰ p (keep not_public (keep (within_ceiling m.raw) declared))
      → Declared declared m p × (classify lib p ≢ public)
  kept_sound declared m p h =
      let (i, e) = mem-keep not_public p _ h in
      let (j, w) = mem-keep (within_ceiling m.raw) p declared i in
      (record { declares = j; within = (within_ceiling_iff m.raw p).0 w }, ground arith)

  kept_complete :
      (declared : List Text) (m : UrlMatcher) (p : Text)
      → Declared declared m p
      → classify lib p ≢ public
      → Memᴰ p (keep not_public (keep (within_ceiling m.raw) declared))
  kept_complete declared m p d e =
      mem-keep_of not_public p _
        (mem-keep_of _ p declared d.declares ((within_ceiling_iff m.raw p).1 d.within))
        (ground arith)

  effective_sound :
      (declared : List Text) (m : UrlMatcher) (url : Text)
      → declared ≢ []
      → is_allowed lib (effective_url_matcher lib declared m) url ≡ true
      → EffectiveGrant declared m url
  unfolding with_allow_http from_patterns
  effective_sound declared m url ne h =
      let g = (is_allowed_iff lib _ url).0 (rw (effective_parts declared m ne) at h) in
      let (source, i, e) = from_patterns_source lib _ g.pattern g.listed in
      let (d, c) = kept_sound declared m source i in
      record {
        parsed = g.parsed;
        parses = g.parses;
        secure = elim g.secure [
          | inl https ↦ inl https
          | inr (on, http) ↦ inr (toggle_sound declared m on, http)
        ];
        host = g.host;
        has_host = g.has_host;
        no_escape = g.no_escape;
        source = source;
        declared_source = d;
        private_source = c;
        pattern = g.pattern;
        parsed_source = e;
        fits = g.fits;
      }

  effective_complete :
      (declared : List Text) (m : UrlMatcher) (url : Text)
      → declared ≢ []
      → EffectiveGrant declared m url
      → is_allowed lib (effective_url_matcher lib declared m) url ≡ true
  unfolding with_allow_http from_patterns
  effective_complete declared m url ne g = rw (effective_parts declared m ne) (
      (is_allowed_iff lib _ url).1 (record {
        parsed = g.parsed;
        parses = g.parses;
        secure = elim g.secure [
          | inl https ↦ inl https
          | inr ((q, d, e), http) ↦ inr (toggle_complete declared m q d e, http)
        ];
        host = g.host;
        has_host = g.has_host;
        no_escape = g.no_escape;
        pattern = g.pattern;
        listed =
            mem-collect_of (parse_pattern lib) g.source g.pattern _
              (kept_complete declared m g.source g.declared_source g.private_source)
              g.parsed_source;
        fits = g.fits;
      }))

  -- With a declaration, the effective matcher allows a URL exactly when a pattern that the
  -- extension declared, that the operator's list (if not empty) holds and that is not plain http to
  -- a public host parses to one that fits it; and a plain http URL only if a loopback pattern
  -- is declared within the ceiling.
  pub effective_url_matcher_iff :
      (declared : List Text) (m : UrlMatcher) (url : Text)
      → declared ≢ []
      → (is_allowed lib (effective_url_matcher lib declared m) url ≡ true)
        ↔ EffectiveGrant declared m url
  effective_url_matcher_iff declared m url ne =
      (effective_sound declared m url ne, effective_complete declared m url ne)
