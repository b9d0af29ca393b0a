-- ===== src/Host/Examples.antt =====
-- The store of an extension that declares a host, under an operator's list.
use greentic_designer_extens.Base.{◌≡◌, refl, subst, false, none, some, [], ◌∷◌, codes}
use greentic_designer_extens.Base.Outcome.{ok, err}
use greentic_designer_extens.Url.Sample.{sample}
use greentic_designer_extens.Url.Matcher.{from_patterns}
use greentic_designer_extens.Limits.Defs.{secs}
use greentic_designer_extens.Secrets.Defs.{not_found}
use greentic_designer_extens.Host.Defs.{
  Permissions, HostOverrides, default_overrides, insert, in_memory, build_store, Store,
}
use greentic_designer_extens.Host.Reach.{
  FollowsNone, Sends, Granted, host_fetch, build_store-Granted,
}
use greentic_designer_extens.Fetch.Defs.{HttpClient, Request}

abbrev permissions : Permissions
permissions = record {
  network = codes "https://api.example.com/*" ∷ [];
  secrets = [];
  call_extension_kinds = [];
  llm_roles = [];
  oauth_providers = [];
}

abbrev client : HttpClient sample
client = record {
  Reply = Unit {0};
  exchange = λ sent s. some tt;
  own_hops = λ sent s. [];
  is_redirection = λ r. false;
  location = λ r. none;
  reply_url =
      λ r. record { scheme = codes "https"; host = codes "api.example.com"; path = codes "/x" };
  reply_status = λ r. 200;
  reply_headers = λ r. [];
  read_up_to = λ k r. some [];
  to_uppercase = λ t. t;
}

abbrev ask : Request
ask = record {
  method = codes "GET";
  url = codes "https://api.example.com/x";
  headers = [];
  body = none;
}

abbrev overrides : HostOverrides sample
overrides = record (default_overrides sample) {
  http_client = some client;
  url_matcher = from_patterns sample (codes "https://api.example.com/*" ∷ []);
}

in_memory_tests :
    (in_memory (insert (codes "k") (codes "v") (insert (codes "k") (codes "u") [])) (codes "k")
      ≡ ok (codes "v"))
    × (in_memory (insert (codes "k") (codes "v") []) (codes "j") ≡ err (not_found (codes "j")))
unfolding in_memory insert
in_memory_tests = (refl, refl)

abbrev store : Store sample
store =
    build_store sample (codes "demo") permissions overrides
      (record { tenant = none; user_email = none }) (some (secs 90))

deadline_test : store.epoch_deadline ≡ 90
unfolding build_store
deadline_test = refl

follows_none : (x : HttpClient sample) → some client ≡ some x → FollowsNone x
follows_none x e = let same : client ≡ x = cc (e) in subst FollowsNone same (λ sent s. refl)

build_store-Granted_example :
    Sends
      (Granted sample permissions overrides (some (secs 90)) store)
      11
      []
      (host_fetch sample store.state ask []).1
build_store-Granted_example =
    build_store-Granted sample (codes "demo") permissions overrides
      (record { tenant = none; user_email = none }) (some (secs 90)) ask [] (λ e. cc (e))
      follows_none
