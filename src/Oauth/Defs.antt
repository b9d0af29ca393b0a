-- ===== src/Oauth/Defs.antt =====
-- host_state_oauth.rs and oauth.rs. The broker's HTTP client and the JSON encoder are parameters;
-- what is sent stands in the answer. The envelopes are the constructors of `OauthAnswer`, and the
-- errors of the request those of `TokenError`; log lines are left out.
use greentic_designer_extens.Base.{
  ℕ, Bool, false, not, ◌||◌, Option, none, some, List, [], ◌∷◌, ◌++◌, Text, codes, text_eq, any,
  is_some, ends_with, if◌then◌else◌,
}
use greentic_designer_extens.Base.Outcome.{Outcome, ok, err}
use greentic_designer_extens.Url.Crate.{UrlCrate}

pub record OauthBrokerConfig : Type 0 where
  pub http_base_url : Text
  pub env : Text
  pub tenant : Text
  pub team : Option Text
  pub shared_secret : Option Text

pub record ResourceTokenRequest : Type 0 where
  pub http_base_url : Text
  pub env : Text
  pub tenant : Text
  pub team : Option Text
  pub resource_id : Text
  pub scopes : List Text

pub record ResourceTokenResponse : Type 0 where
  pub access_token : Text
  pub expires_at : ℕ

-- The functions of the `url` crate that oauth.rs uses besides those of `UrlCrate`.
pub record UrlPaths (lib : UrlCrate) : Type 0 where
  pub query : lib.Url → Option Text
  pub set_path : Text → lib.Url → lib.Url

-- A `POST` that leaves the host, with its JSON body and its bearer token.
pub record Posted (lib : UrlCrate) : Type 0 where
  pub url : lib.Url
  pub timeout : ℕ
  pub body : ResourceTokenRequest
  pub bearer : Option Text

-- The blocking client. `is_error` is a status from 400 to 599, and `json` reads the body.
pub record BrokerClient (lib : UrlCrate) : Type 1 where
  pub Reply : Type 0
  pub send : Posted lib → Option Reply
  pub is_error : Reply → Bool
  pub json : Reply → Option ResourceTokenResponse

pub data TokenError : Type 0 where
  bad_base_url not_https has_query not_joined not_sent error_status bad_body : TokenError

pub data OauthAnswer : Type 0 where
  permission_denied : (provider : Text) → OauthAnswer
  unconfigured encode_failed broker_request_failed not_implemented : OauthAnswer
  encoded : (response : Text) → OauthAnswer

module _ (lib : UrlCrate) (paths : UrlPaths lib) where
  unfoldable pub is_host : Text → lib.Url → Bool
  is_host name u = elim (lib.host_str u) [ none ↦ false | some h ↦ text_eq h name ]

  unfoldable pub is_local : lib.Url → Bool
  unfolding is_host
  is_local u = is_host (codes "127.0.0.1") u || is_host (codes "localhost") u

  -- The base with a slash at the end of its path.
  unfoldable pub anchored : lib.Url → lib.Url
  anchored base =
      if not (ends_with (codes "/") (lib.path base))
      then paths.set_path (lib.path base ++ codes "/") base
      else base

  -- The address that the request goes to.
  unfoldable pub endpoint : Text → Outcome TokenError lib.Url
  unfolding is_local anchored
  endpoint text = elim (lib.parse text) [
    | none ↦ err bad_base_url
    | some base ↦
        if not (text_eq (lib.scheme base) (codes "https") || is_local base)
        then err not_https
        else if is_some (paths.query base)
        then err has_query
        else elim (lib.join (anchored base) (codes "resource-token")) [
          | none ↦ err not_joined
          | some url ↦ ok url
        ]
  ]

  module _ (client : BrokerClient lib) where
    abbrev pub read_reply : client.Reply → Outcome TokenError ResourceTokenResponse
    read_reply reply =
        if client.is_error reply
        then err error_status
        else elim (client.json reply) [ none ↦ err bad_body | some r ↦ ok r ]

    abbrev pub read_sent : Option client.Reply → Outcome TokenError ResourceTokenResponse
    read_sent none = err not_sent
    read_sent (some reply) = read_reply reply

    unfoldable pub request_resource_token_blocking :
        ResourceTokenRequest
        → Option Text
        → ℕ
        → Outcome TokenError ResourceTokenResponse × List (Posted lib)
    unfolding endpoint
    request_resource_token_blocking request shared_secret timeout =
        elim (endpoint request.http_base_url) [
          | err e ↦ (err e, [])
          | ok url ↦
              let post : Posted lib = record {
                url = url;
                timeout = timeout;
                body = request;
                bearer = shared_secret;
              } in
              (read_sent (client.send post), post ∷ [])
        ]

  -- The part of `HostState` that these calls read. `to_string` is `serde_json::to_string`.
  pub record OauthHost : Type 1 where
    pub oauth_providers : List Text
    pub oauth_config : Option OauthBrokerConfig
    pub http_client : Option (BrokerClient lib)
    pub http_timeout : ℕ
    pub to_string : ResourceTokenResponse → Option Text

  unfoldable pub check_provider : OauthHost → Text → Bool
  check_provider h provider_id = any (λ p. text_eq p provider_id) h.oauth_providers

  abbrev pub token_request : OauthBrokerConfig → Text → List Text → ResourceTokenRequest
  token_request cfg provider_id scopes = record {
    http_base_url = cfg.http_base_url;
    env = cfg.env;
    tenant = cfg.tenant;
    team = cfg.team;
    resource_id = provider_id;
    scopes = scopes;
  }

  abbrev pub encode_with :
      (ResourceTokenResponse → Option Text) → ResourceTokenResponse → OauthAnswer
  encode_with to_string resp = elim (to_string resp) [
    | none ↦ encode_failed
    | some text ↦ encoded text
  ]

  abbrev pub envelope :
      (ResourceTokenResponse → Option Text) → Outcome TokenError ResourceTokenResponse → OauthAnswer
  envelope to_string (ok resp) = encode_with to_string resp
  envelope to_string (err e) = broker_request_failed

  unfoldable pub get_token : OauthHost → Text → Text → List Text → OauthAnswer × List (Posted lib)
  unfolding check_provider request_resource_token_blocking
  get_token h provider_id subject scopes =
      if not (check_provider h provider_id)
      then (permission_denied provider_id, [])
      else elim h.oauth_config [
        | none ↦ (unconfigured, [])
        | some cfg ↦ elim h.http_client [
          | none ↦ (unconfigured, [])
          | some client ↦
              let (result, sent) =
                request_resource_token_blocking client (token_request cfg provider_id scopes)
                  cfg.shared_secret h.http_timeout in
              (envelope h.to_string result, sent)
        ]
      ]

  unfoldable pub get_consent_url : OauthHost → Text → Text → List Text → Text → Text → OauthAnswer
  unfolding check_provider
  get_consent_url h provider_id subject scopes redirect_path extra_json =
      if not (check_provider h provider_id) then permission_denied provider_id else not_implemented

  unfoldable pub exchange_code : OauthHost → Text → Text → Text → Text → OauthAnswer
  unfolding check_provider
  exchange_code h provider_id subject code redirect_path =
      if not (check_provider h provider_id) then permission_denied provider_id else not_implemented
