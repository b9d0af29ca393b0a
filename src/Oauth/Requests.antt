-- ===== src/Oauth/Requests.antt =====
-- What an extension gets from the calls on the broker interface, and what they send.
use greentic_designer_extens.Base.{
  ◌≡◌, ◌≢◌, refl, sym, ap, ◌∙◌, subst, ◌↔◌, ◌⊎◌, inl, inr, true, false, Option, none, some, List,
  [], ◌∷◌, Memᴰ, Text, text_eq, text_eq_iff, text_eq_refl, any_found, any_of_mem, is_some,
  Bool-cases, Option-cases,
}
use greentic_designer_extens.Base.Outcome.{Outcome, Outcome-cases, ok, err}
use greentic_designer_extens.Url.Crate.{UrlCrate}
use greentic_designer_extens.Oauth.Defs.{
  UrlPaths, TokenError, ResourceTokenResponse, OauthBrokerConfig, OauthAnswer, permission_denied,
  unconfigured, broker_request_failed, OauthHost, BrokerClient, Posted, token_request,
  check_provider, endpoint, envelope, encode_with, read_sent, request_resource_token_blocking,
  get_token, get_consent_url, exchange_code,
}
use greentic_designer_extens.Oauth.Endpoint.{IsBase, endpoint_iff}

module _ (lib : UrlCrate) (paths : UrlPaths lib) where
  check_provider_iff :
      (h : OauthHost lib paths) (p : Text)
      → (check_provider lib paths h p ≡ true) ↔ Memᴰ p h.oauth_providers
  unfolding check_provider
  check_provider_iff h p = (
    λ e.
        let (q, i, same) = any_found (λ q. text_eq q p) h.oauth_providers e in
        subst (λ t. Memᴰ t h.oauth_providers) ((text_eq_iff q p).0 same) i,
    λ i. any_of_mem (λ q. text_eq q p) p h.oauth_providers i (text_eq_refl p),
  )

  -- The request for a token that was sent, and its answer.
  pub record TokenSent (h : OauthHost lib paths) (p subject : Text) (scopes : List Text)
      : Type 1 where
    pub declared : Memᴰ p h.oauth_providers
    pub cfg : OauthBrokerConfig
    pub configured : h.oauth_config ≡ some cfg
    pub client : BrokerClient lib
    pub connected : h.http_client ≡ some client
    pub url : lib.Url
    pub address : IsBase lib paths cfg.http_base_url url
    pub post : Posted lib
    pub is_post : post ≡ record {
      url = url;
      timeout = h.http_timeout;
      body = token_request lib paths cfg p scopes;
      bearer = cfg.shared_secret;
    }
    pub result : get_token lib paths h p subject scopes ≡ (
      envelope lib paths h.to_string (read_sent lib paths client (client.send post)),
      post ∷ [],
    )

  -- Why nothing is sent.
  abbrev pub TokenCause : OauthHost lib paths → Text → OauthAnswer → Type 0
  TokenCause h p (permission_denied q) = (q ≡ p) × (Memᴰ p h.oauth_providers → ⊥)
  TokenCause h p unconfigured =
      Memᴰ p h.oauth_providers × ((h.oauth_config ≡ none) ⊎ (is_some h.http_client ≡ false))
  TokenCause h p broker_request_failed =
      Memᴰ p h.oauth_providers
      × ((cfg : OauthBrokerConfig) × (h.oauth_config ≡ some cfg)
          × ((url : lib.Url) → IsBase lib paths cfg.http_base_url url → ⊥))
  TokenCause h p _ = ⊥

  -- A token is asked for once, at the endpoint of the configured broker and with its own secret, when
  -- the provider is declared, the broker is configured and its address has an endpoint, and its
  -- answer is passed on; otherwise nothing is sent, and the answer says why.
  pub get_token_lem :
      (h : OauthHost lib paths) (p subject : Text) (scopes : List Text)
      → TokenSent h p subject scopes
        ⊎ ((a : OauthAnswer) × TokenCause h p a
            × (get_token lib paths h p subject scopes ≡ (a, [])))
  unfolding get_token request_resource_token_blocking
  get_token_lem h p subject scopes = elim (Bool-cases (check_provider lib paths h p)) [
    | inr denied ↦ inr (
      permission_denied p,
      (refl, λ i. cc (denied, (check_provider_iff h p).1 i)),
      rw (denied, get_token) refl,
    )
    | inl allowed ↦
        let declared = (check_provider_iff h p).0 allowed in
        elim (Option-cases h.oauth_config) [
          | inl unset ↦
              inr (unconfigured, (declared, inl unset), rw (allowed, unset, get_token) refl)
          | inr (cfg, set) ↦ elim (Option-cases h.http_client) [
            | inl absent ↦ inr (
              unconfigured,
              (declared, inr (rw absent refl)),
              rw (allowed, set, absent, get_token) refl,
            )
            | inr (client, there) ↦ elim (Outcome-cases (endpoint lib paths cfg.http_base_url)) [
              | inl (e, bad) ↦ inr (
                broker_request_failed,
                (
                  declared,
                  (cfg, set, λ url b. cc (bad, (endpoint_iff lib paths cfg.http_base_url url).1 b)),
                ),
                rw (allowed, set, there, bad, get_token, request_resource_token_blocking) refl,
              )
              | inr (url, good) ↦ inl (record {
                declared = declared;
                cfg = cfg;
                configured = set;
                client = client;
                connected = there;
                url = url;
                address = (endpoint_iff lib paths cfg.http_base_url url).0 good;
                post = _;
                is_post = refl;
                result =
                    rw (allowed, set, there, good, get_token, request_resource_token_blocking) refl;
              })
            ]
          ]
        ]
  ]

  check_cases :
      (h : OauthHost lib paths) (p : Text)
      → (Memᴰ p h.oauth_providers × (check_provider lib paths h p ≡ true))
        ⊎ ((Memᴰ p h.oauth_providers → ⊥) × (check_provider lib paths h p ≡ false))
  check_cases h p = elim (Bool-cases (check_provider lib paths h p)) [
    | inl allowed ↦ inl ((check_provider_iff h p).0 allowed, allowed)
    | inr denied ↦ inr (λ i. cc (denied, (check_provider_iff h p).1 i), denied)
  ]

  envelope_open :
      (f : ResourceTokenResponse → Option Text) (p : Text)
      (r : Outcome TokenError ResourceTokenResponse)
      → envelope lib paths f r ≢ permission_denied p
  envelope_open f p (err e) = λ h. cc
  envelope_open f p (ok r) = elim (Option-cases (f r)) [
    | inl e ↦ rw (e, encode_with) (λ h. cc)
    | inr (t, e) ↦ rw (e, encode_with) (λ h. cc)
  ]

  cause_of_denied :
      (h : OauthHost lib paths) (p : Text) (a : OauthAnswer)
      → TokenCause h p a
      → a ≡ permission_denied p
      → Memᴰ p h.oauth_providers
      → ⊥
  cause_of_denied h p a c e = (subst (TokenCause h p) e c).1

  open_token :
      (h : OauthHost lib paths) (p subject : Text) (scopes : List Text)
      → (get_token lib paths h p subject scopes).0 ≡ permission_denied p
      → Memᴰ p h.oauth_providers
      → ⊥
  open_token h p subject scopes e = elim (get_token_lem h p subject scopes) [
    | inl sent ↦ absurd (envelope_open h.to_string p _ (sym (ap (λ x. x.0) sent.result) ∙ e))
    | inr (a, cause, same) ↦ cause_of_denied h p a cause (sym (ap (λ x. x.0) same) ∙ e)
  ]

  -- Each of the three calls answers that the provider is denied exactly when the extension does not
  -- declare it.
  pub gate_iff :
      (h : OauthHost lib paths) (p subject : Text) (scopes : List Text) (x y : Text)
      → (((get_token lib paths h p subject scopes).0 ≡ permission_denied p)
          ↔ (Memᴰ p h.oauth_providers → ⊥))
        × ((get_consent_url lib paths h p subject scopes x y ≡ permission_denied p)
            ↔ (Memᴰ p h.oauth_providers → ⊥))
        × ((exchange_code lib paths h p subject x y ≡ permission_denied p)
            ↔ (Memᴰ p h.oauth_providers → ⊥))
  unfolding get_consent_url exchange_code get_token
  gate_iff h p subject scopes x y = elim (check_cases h p) [
    | inr (undeclared, denied) ↦ (
      (λ e. undeclared, λ e. rw (denied, get_token) refl),
      (λ e. undeclared, λ e. rw (denied, get_consent_url) refl),
      (λ e. undeclared, λ e. rw (denied, exchange_code) refl),
    )
    | inl (declared, allowed) ↦ (
      (open_token h p subject scopes, λ e. absurd (e declared)),
      (λ e. absurd (cc (rw (allowed, get_consent_url) at e)), λ e. absurd (e declared)),
      (λ e. absurd (cc (rw (allowed, exchange_code) at e)), λ e. absurd (e declared)),
    )
  ]
