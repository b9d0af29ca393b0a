-- ===== src/Host/Defs.antt =====
-- host_state.rs and the part of loaded.rs before a component is instantiated: the state of a store, from
-- an extension's declaration, what the host supplies, and the dispatch. The weak reference to the runtime
-- is whether it can be upgraded. The WASI context, which grants nothing, is left out.
use greentic_designer_extens.Base.{
  ℕ, Bool, false, Option, none, List, [], ◌∷◌, Text, text_eq, if◌then◌else◌,
}
use greentic_designer_extens.Base.Outcome.{ok, err}
use greentic_designer_extens.Url.Crate.{UrlCrate}
use greentic_designer_extens.Url.Matcher.{UrlMatcher, default_matcher}
use greentic_designer_extens.Net.Policy.{effective_url_matcher}
use greentic_designer_extens.Fetch.Defs.{HttpClient}
use greentic_designer_extens.Limits.Defs.{PackLimits, new_limits, http_timeout_for, epoch_deadline}
use greentic_designer_extens.Secrets.Defs.{not_found, SecretsBackend}
use greentic_designer_extens.Llm.Defs.{HostCallContext, LlmPort}
use greentic_designer_extens.Oauth.Defs.{OauthBrokerConfig}

-- The permissions of a description that the host reads.
pub record Permissions : Type 0 where
  pub network : List Text
  pub secrets : List Text
  pub call_extension_kinds : List Text
  pub llm_roles : List Text
  pub oauth_providers : List Text

-- host_ports.rs
pub record Translator : Type 0 where
  pub t : Text → Text
  pub tf : Text → List (Text × Text) → Text

abbrev pub key_translator : Translator
key_translator = record { t = λ key. key; tf = λ key args. key }

-- `InMemorySecrets`: a later insertion stands before an earlier one.
abbrev pub InMemorySecrets : Type 0
InMemorySecrets = List (Text × Text)

unfoldable pub insert : Text → Text → InMemorySecrets → InMemorySecrets
insert key value map = (key, value) ∷ map

unfoldable pub in_memory : InMemorySecrets → SecretsBackend
in_memory [] key = err (not_found key)
in_memory (e ∷ map) key = let rest = in_memory map key in if text_eq e.0 key then ok e.1 else rest

module _ (lib : UrlCrate) where
  pub record HostOverrides : Type 1 where
    pub translator : Translator
    pub secrets_backend : SecretsBackend
    pub http_client : Option (HttpClient lib)
    pub llm_port : Option LlmPort
    pub url_matcher : UrlMatcher
    pub runtime_there : Bool
    pub call_depth_start : ℕ
    pub oauth_config : Option OauthBrokerConfig

  abbrev pub default_overrides : HostOverrides
  default_overrides = record {
    translator = key_translator;
    secrets_backend = in_memory [];
    http_client = none;
    llm_port = none;
    url_matcher = default_matcher;
    runtime_there = false;
    call_depth_start = 0;
    oauth_config = none;
  }

  pub record HostState : Type 1 where
    pub extension_id : Text
    pub permissions : Permissions
    pub call_depth : ℕ
    pub translator : Translator
    pub secrets_backend : SecretsBackend
    pub http_client : Option (HttpClient lib)
    pub http_timeout : ℕ
    pub llm_port : Option LlmPort
    pub call_ctx : HostCallContext
    pub url_matcher : UrlMatcher
    pub runtime_there : Bool
    pub oauth_config : Option OauthBrokerConfig
    pub limits : PackLimits

  -- A store: its state, and the deadline in ticks that is set on it.
  pub record Store : Type 1 where
    pub state : HostState
    pub epoch_deadline : ℕ

  -- The store that `build_store_and_instance` makes, for the extension's id and permissions.
  unfoldable pub build_store :
      Text → Permissions → HostOverrides → HostCallContext → Option ℕ → Store
  unfolding effective_url_matcher new_limits http_timeout_for epoch_deadline
  build_store extension_id permissions o ctx dispatch_timeout = record {
    state = record {
      extension_id = extension_id;
      permissions = permissions;
      call_depth = o.call_depth_start;
      translator = o.translator;
      secrets_backend = o.secrets_backend;
      http_client = o.http_client;
      http_timeout = http_timeout_for dispatch_timeout;
      llm_port = o.llm_port;
      call_ctx = ctx;
      url_matcher = effective_url_matcher lib permissions.network o.url_matcher;
      runtime_there = o.runtime_there;
      oauth_config = o.oauth_config;
      limits = new_limits;
    };
    epoch_deadline = epoch_deadline dispatch_timeout;
  }
