-- ===== src/Oauth/Endpoint.antt =====
-- Where the request for a token goes.
use greentic_designer_extens.Base.{
  arith, ap, ◌≡◌, refl, ◌∙◌, ◌↔◌, ◌⊎◌, inl, inr, none, some, ◌++◌, Text, codes, text_eq,
  text_eq_iff, text_eq_sound, text_eq_complete, ◌||◌, strip_suffix, strip_suffix_sound, Bool-cases,
  Option-cases, Bool, true,
}
use greentic_designer_extens.Base.Outcome.{ok}
use greentic_designer_extens.Url.Crate.{UrlCrate}
use greentic_designer_extens.Oauth.Defs.{UrlPaths, is_host, is_local, anchored, endpoint}

module _ (lib : UrlCrate) (paths : UrlPaths lib) where
  abbrev pub IsTrusted : lib.Url → Type 0
  IsTrusted base =
      (lib.scheme base ≡ codes "https")
      ⊎ ((lib.host_str base ≡ some (codes "127.0.0.1"))
          ⊎ (lib.host_str base ≡ some (codes "localhost")))

  -- The base of an address that requests may go to.
  pub record IsBase (text : Text) (url : lib.Url) : Type 0 where
    pub base : lib.Url
    pub parsed : lib.parse text ≡ some base
    pub trusted : IsTrusted base
    pub no_query : paths.query base ≡ none
    pub joined : lib.join (anchored lib paths base) (codes "resource-token") ≡ some url

  is_host_iff :
      (name : Text) (u : lib.Url) → (is_host lib paths name u ≡ true) ↔ (lib.host_str u ≡ some name)
  unfolding is_host
  is_host_iff name u = elim (Option-cases (lib.host_str u)) [
    | inl e ↦ rw (e, is_host) (λ h. cc, λ h. cc)
    | inr (h, e) ↦
        rw (e, is_host) (λ t. cc (text_eq_sound h name t), λ t. text_eq_complete h name (cc))
  ]

  is_local_iff :
      (u : lib.Url)
      → (is_local lib paths u ≡ true) ↔ (
          (lib.host_str u ≡ some (codes "127.0.0.1")) ⊎ (lib.host_str u ≡ some (codes "localhost")))
  unfolding is_local
  is_local_iff u =
      let numeric = is_host_iff (codes "127.0.0.1") u in
      let named = is_host_iff (codes "localhost") u in
      (
        λ t. elim (Bool-cases (is_host lib paths (codes "127.0.0.1") u)) [
          | inl e ↦ inl (numeric.0 e)
          | inr e ↦ inr (named.0 (rw e at t))
        ],
        λ t. elim t [ inl e ↦ rw (numeric.1 e) refl | inr e ↦ ground (arith, named.1 e) ],
      )

  trusted : lib.Url → Bool
  unfolding is_local
  trusted u = text_eq (lib.scheme u) (codes "https") || is_local lib paths u

  trusted_iff : (u : lib.Url) → (trusted u ≡ true) ↔ IsTrusted u
  unfolding trusted
  trusted_iff u =
      let https = text_eq_iff (lib.scheme u) (codes "https") in
      let near = is_local_iff u in
      (
        λ t. elim (Bool-cases (text_eq (lib.scheme u) (codes "https"))) [
          | inl e ↦ inl (https.0 e)
          | inr e ↦ inr (near.0 (rw e at t))
        ],
        λ t. elim t [ inl e ↦ rw (https.1 e) refl | inr e ↦ ground (arith, near.1 e) ],
      )

  -- A text has an endpoint exactly when it is an address over `https` or on this machine, without a
  -- query, that `resource-token` can be joined to, below its whole path.
  pub endpoint_iff :
      (text : Text) (url : lib.Url) → (endpoint lib paths text ≡ ok url) ↔ IsBase text url
  unfolding endpoint trusted
  endpoint_iff text url = (to, from)
    where
      to : endpoint lib paths text ≡ ok url → IsBase text url
      to h = elim (Option-cases (lib.parse text)) [
        | inl e ↦ absurd (cc (rw (e, endpoint) at h))
        | inr (base, e) ↦ elim (Bool-cases (trusted base)) [
          | inr far ↦ absurd (cc (rw (e, endpoint, far) at h))
          | inl near ↦ elim (Option-cases (paths.query base)) [
            | inr (q, some_query) ↦ absurd (cc (rw (e, endpoint, near, some_query) at h))
            | inl clean ↦
                elim (Option-cases (lib.join (anchored lib paths base) (codes "resource-token"))) [
                  | inl apart ↦ absurd (cc (rw (e, endpoint, near, clean, apart) at h))
                  | inr (v, together) ↦
                      let same : v ≡ url = cc (rw (e, endpoint, near, clean, together) at h) in
                      record {
                        base = base;
                        parsed = e;
                        trusted = (trusted_iff base).0 near;
                        no_query = clean;
                        joined = cc;
                      }
                ]
          ]
        ]
      ]

      from : IsBase text url → endpoint lib paths text ≡ ok url
      from b = rw (b.parsed, endpoint, (trusted_iff b.base).1 b.trusted, b.no_query, b.joined) refl

  -- What the `url` crate documents: an `https` URL has a host; setting the path of a URL with a host
  -- to its own path and a slash changes the path alone; and a name without a slash that is joined to
  -- such a URL stands behind the last slash of the path.
  pub record PathLaws : Type 0 where
    pub https_host :
        (u : lib.Url) → lib.scheme u ≡ codes "https" → (h : Text) × (lib.host_str u ≡ some h)
    pub set_slash :
        (u : lib.Url) (h : Text)
        → lib.host_str u ≡ some h
        → (lib.path (paths.set_path (lib.path u ++ codes "/") u) ≡ lib.path u ++ codes "/")
          × (lib.scheme (paths.set_path (lib.path u ++ codes "/") u) ≡ lib.scheme u)
          × (lib.host_str (paths.set_path (lib.path u ++ codes "/") u) ≡ lib.host_str u)
    pub join_name :
        (u v : lib.Url) (h p : Text)
        → lib.host_str u ≡ some h
        → lib.path u ≡ p ++ codes "/"
        → lib.join u (codes "resource-token") ≡ some v
        → (lib.path v ≡ lib.path u ++ codes "resource-token")
          × (lib.scheme v ≡ lib.scheme u)
          × (lib.host_str v ≡ lib.host_str u)

  -- The address below a base, on its host.
  pub record IsBelow (base url : lib.Url) : Type 0 where
    pub folder : Text
    pub whole_path : (lib.path base ≡ folder ++ codes "/") ⊎ (lib.path base ≡ folder)
    pub path : lib.path url ≡ (folder ++ codes "/") ++ codes "resource-token"
    pub scheme : lib.scheme url ≡ lib.scheme base
    pub host : lib.host_str url ≡ lib.host_str base

  has_host : PathLaws → (u : lib.Url) → IsTrusted u → (h : Text) × (lib.host_str u ≡ some h)
  has_host laws u (inl e) = laws.https_host u e
  has_host laws u (inr (inl e)) = (codes "127.0.0.1", e)
  has_host laws u (inr (inr e)) = (codes "localhost", e)

  anchored-IsBelow :
      PathLaws
      → (base url : lib.Url) (h : Text) → lib.host_str base ≡ some h
      → lib.join (anchored lib paths base) (codes "resource-token") ≡ some url
      → IsBelow base url
  unfolding anchored
  anchored-IsBelow laws base url h e j =
      elim (Option-cases (strip_suffix (codes "/") (lib.path base))) [
        | inr (folder, found) ↦
            let ends = strip_suffix_sound (codes "/") (lib.path base) folder found in
            let (path, scheme, host) =
              laws.join_name base url h folder e ends (rw (found, anchored) at j) in
            record {
              folder = folder;
              whole_path = inl ends;
              path = path ∙ ap (λ t. t ++ codes "resource-token") ends;
              scheme = scheme;
              host = host;
            }
        | inl bare ↦
            let (path, scheme, host) = laws.set_slash base h e in
            let (path1, scheme1, host1) =
              laws.join_name _ url h (lib.path base) (host ∙ e) path (rw (bare, anchored) at j) in
            record {
              folder = lib.path base;
              whole_path = inr refl;
              path = path1 ∙ ap (λ t. t ++ codes "resource-token") path;
              scheme = scheme1 ∙ scheme;
              host = host1 ∙ host;
            }
      ]

  -- The endpoint of an address is on the scheme and host of the address, which is `https` or this
  -- machine, and its path is the whole path of the address with `resource-token` behind it.
  pub endpoint-IsBelow :
      PathLaws
      → (text : Text) (url : lib.Url) → endpoint lib paths text ≡ ok url
      → (base : lib.Url) × (lib.parse text ≡ some base) × IsTrusted base × IsBelow base url
  endpoint-IsBelow laws text url e =
      let b = (endpoint_iff text url).0 e in
      let (h, there) = has_host laws b.base b.trusted in
      (b.base, b.parsed, b.trusted, anchored-IsBelow laws b.base url h there b.joined)
