-- ===== src/Fetch/Examples.antt =====
-- A fetch that is redirected once, and one that is redirected off the allow-list.
use greentic_designer_extens.Base.{
  ℕ, zero, suc, ◌≡◌, refl, none, some, [], ◌∷◌, Text, codes, trim_end_matches, ◌==◌, length,
}
use greentic_designer_extens.Base.Outcome.{ok, err}
use greentic_designer_extens.Url.Sample.{sample, SampleUrl}
use greentic_designer_extens.Url.Matcher.{
  UrlMatcher, host_matches, path_covers, parse_pattern, from_patterns, is_allowed, matches,
  contains_encoded_separator,
}
use greentic_designer_extens.Fetch.Defs.{
  get, HttpClient, Request, Sent, redirect_not_allowed, loggable, redirect_target, is_forbidden,
  fetch,
}
use greentic_designer_extens.Fetch.Redirects.{Fetched, fetch-Fetched}

fetching : Unit {0}
unfolding fetch redirect_target loggable is_forbidden is_allowed matches host_matches path_covers
    contains_encoded_separator from_patterns parse_pattern trim_end_matches
fetching = tt

abbrev allow_a : UrlMatcher
allow_a = from_patterns sample (codes "https://a.com/*" ∷ [])

abbrev url_at : Text → SampleUrl
url_at path = record { scheme = codes "https"; host = codes "a.com"; path = path }

-- The first reply redirects to `target`, the later ones are pages.
abbrev server : Text → HttpClient sample
server target = record {
  Reply = ℕ;
  exchange = λ sent s. some (length sent);
  own_hops = λ sent s. [];
  is_redirection = λ n. n == 0;
  location = λ n. some target;
  reply_url = λ n. if_first n;
  reply_status = λ n. 200;
  reply_headers = λ n. [];
  read_up_to = λ k n. some (codes "hi");
  to_uppercase = λ t. t;
}
  where
    if_first : ℕ → SampleUrl
    if_first zero = url_at (codes "/x")
    if_first (suc n) = url_at (codes "/y")

abbrev ask : Request
ask = record {
  method = codes "GET";
  url = codes "https://a.com/x";
  headers = (codes "Host", codes "b") ∷ (codes "accept", codes "*") ∷ [];
  body = none;
}

abbrev sent_to : Text → Sent
sent_to url = record {
  method = get;
  url = url;
  headers = (codes "accept", codes "*") ∷ [];
  body = none;
  timeout = 5;
}

fetch_tests :
    (fetch sample (some (server (codes "https://a.com/y"))) 5 allow_a ask [] ≡ (
      ok (record { status = 200; headers = []; body = codes "hi" }),
      sent_to (codes "https://a.com/x") ∷ sent_to (codes "https://a.com/y") ∷ [],
    ))
    × (fetch sample (some (server (codes "https://b.com/y"))) 5 allow_a ask [] ≡ (
      err (redirect_not_allowed (codes "https://b.com/y")),
      sent_to (codes "https://a.com/x") ∷ [],
    ))
unfolding fetching
fetch_tests = (refl, refl)

fetch-Fetched_example :
    Fetched sample
      (server (codes "https://a.com/y"))
      5
      allow_a
      ask
      []
      (fetch sample (some (server (codes "https://a.com/y"))) 5 allow_a ask [])
fetch-Fetched_example = fetch-Fetched sample (server (codes "https://a.com/y")) 5 allow_a ask []
