-- ===== src/Oauth/Examples.antt =====
-- A broker at an address with a base path, over the sample URLs.
use greentic_designer_extens.Base.{
  ◌≡◌, refl, ap, ◌↔◌, ◌⊎◌, false, Option, none, some, [], ◌∷◌, ◌++◌, Memᴰ, Text, codes,
}
use greentic_designer_extens.Base.Outcome.{ok, err}
use greentic_designer_extens.Url.Crate.{UrlCrate}
use greentic_designer_extens.Url.Sample.{SampleUrl, sample}
use greentic_designer_extens.Oauth.Defs.{
  UrlPaths, OauthBrokerConfig, OauthAnswer, permission_denied, encoded, OauthHost, BrokerClient,
  anchored, is_host, is_local, check_provider, request_resource_token_blocking, endpoint, get_token,
  get_consent_url, exchange_code, not_https,
}
use greentic_designer_extens.Oauth.Endpoint.{IsTrusted, IsBelow, PathLaws, endpoint-IsBelow}
use greentic_designer_extens.Oauth.Requests.{TokenSent, TokenCause, get_token_lem, gate_iff}

-- The sample URLs, where a name is joined to a path that ends in a slash.
abbrev joined : SampleUrl → Text → Option SampleUrl
joined u name = some (record u { path = u.path ++ name })

abbrev crate : UrlCrate
crate = record sample { join = joined }

abbrev paths : UrlPaths crate
paths = record { query = λ u. none; set_path = λ p u. record u { path = p } }

laws : PathLaws crate paths
laws = record {
  https_host = λ u e. (u.host, refl);
  set_slash = λ u h e. (refl, refl, refl);
  join_name = λ u v h p e f g.
      let same : v ≡ record u { path = u.path ++ codes "resource-token" } = cc (g) in
      (
        ap (λ (x : SampleUrl). x.path) same,
        ap (λ (x : SampleUrl). x.scheme) same,
        ap (λ (x : SampleUrl). some x.host) same,
      );
}

abbrev client : BrokerClient crate
client = record {
  Reply = Text;
  send = λ p. elim p.bearer [ none ↦ none | some s ↦ some s ];
  is_error = λ r. false;
  json = λ r. some (record { access_token = r; expires_at = 9 });
}

abbrev config : OauthBrokerConfig
config = record {
  http_base_url = codes "https://broker/api";
  env = codes "dev";
  tenant = codes "acme";
  team = none;
  shared_secret = some (codes "key");
}

abbrev host : OauthHost crate paths
host = record {
  oauth_providers = codes "hubspot" ∷ [];
  oauth_config = some config;
  http_client = some client;
  http_timeout = 30000;
  to_string = λ r. some r.access_token;
}

abbrev below : SampleUrl
below = record { scheme = codes "https"; host = codes "broker"; path = codes "/api/resource-token" }

endpoint_test : endpoint crate paths (codes "https://broker/api") ≡ ok below
unfolding endpoint anchored
endpoint_test = refl

plain_test : endpoint crate paths (codes "http://broker/api") ≡ err not_https
unfolding endpoint is_local is_host
plain_test = refl

token_test : (get_token crate paths host (codes "hubspot") [] []).0 ≡ encoded (codes "key")
unfolding get_token check_provider request_resource_token_blocking endpoint anchored
token_test = refl

endpoint-IsBelow_example :
    (base : SampleUrl) × (crate.parse (codes "https://broker/api") ≡ some base)
    × IsTrusted crate paths base
    × IsBelow crate paths base below
endpoint-IsBelow_example =
    endpoint-IsBelow crate paths laws (codes "https://broker/api") below endpoint_test

get_token_lem_example :
    TokenSent crate paths host (codes "hubspot") [] []
    ⊎ ((a : OauthAnswer) × TokenCause crate paths host (codes "hubspot") a
        × (get_token crate paths host (codes "hubspot") [] [] ≡ (a, [])))
get_token_lem_example = get_token_lem crate paths host (codes "hubspot") [] []

gate_iff_example :
    (((get_token crate paths host (codes "google") [] []).0 ≡ permission_denied (codes "google"))
      ↔ (Memᴰ (codes "google") host.oauth_providers → ⊥))
    × ((get_consent_url crate paths host (codes "google") [] [] [] []
          ≡ permission_denied (codes "google"))
        ↔ (Memᴰ (codes "google") host.oauth_providers → ⊥))
    × ((exchange_code crate paths host (codes "google") [] [] []
          ≡ permission_denied (codes "google"))
        ↔ (Memᴰ (codes "google") host.oauth_providers → ⊥))
gate_iff_example = gate_iff crate paths host (codes "google") [] [] [] []
