-- ===== src/Fetch/Defs.antt =====
-- host_state_net.rs. The HTTP client is a parameter: it answers a request by what was sent before
-- it, so any server can stand behind it. Error texts are the constructors of `FetchError`, with the
-- values that they print; log lines are left out.
use greentic_designer_extens.Base.{
  ℕ, zero, suc, ◌+◌, ◌*◌, Bool, true, false, not, ◌&&◌, Option, none, some, List, [], ◌∷◌, ◌++◌,
  Text, codes, text_eq, eq_ignore_ascii_case, any, keep, collect, length, ltb, if◌then◌else◌,
}
use mathlib.Core.Option
use greentic_designer_extens.Base.Options
use greentic_designer_extens.Base.Outcome.{Outcome, ok, err}
use greentic_designer_extens.Url.Crate.{UrlCrate}
use greentic_designer_extens.Url.Matcher.{UrlMatcher, is_allowed}

abbrev pub max_response_bytes : ℕ
max_response_bytes = 32 * 1024 * 1024

abbrev pub max_redirect_hops : ℕ
max_redirect_hops = 10

abbrev pub forbidden_request_headers : List Text
forbidden_request_headers =
    codes "host"
    ∷ codes "content-length"
    ∷ codes "transfer-encoding"
    ∷ codes "connection"
    ∷ codes "upgrade"
    ∷ codes "expect"
    ∷ []

pub data Method : Type 0 where
  get post put delete patch head : Method

pub record Request : Type 0 where
  pub method : Text
  pub url : Text
  pub headers : List (Text × Text)
  pub body : Option Text

-- One request that leaves the host, with the time that it is given.
pub record Sent : Type 0 where
  pub method : Method
  pub url : Text
  pub headers : List (Text × Text)
  pub body : Option Text
  pub timeout : ℕ

pub data FetchError : Type 0 where
  not_allowed : Text → FetchError
  no_client : FetchError
  unsupported_method : Text → FetchError
  transport : FetchError
  redirect_not_allowed : Text → FetchError
  body_error : FetchError
  body_too_large : FetchError

pub record Response : Type 0 where
  pub status : ℕ
  pub headers : List (Text × Text)
  pub body : Text

-- The client, over the URLs of the `url` crate. `exchange` is `send`, given all that was sent
-- before; `own_hops` is what a client that follows redirects itself sends after the request; `location` is the `Location` header where it is text; `read_up_to` reads at most so
-- many bytes of the body. `to_uppercase` is the Unicode mapping of `str`.
pub record HttpClient (lib : UrlCrate) : Type 1 where
  pub Reply : Type 0
  pub exchange : List Sent → Sent → Option Reply
  pub own_hops : List Sent → Sent → List Sent
  pub is_redirection : Reply → Bool
  pub location : Reply → Option Text
  pub reply_url : Reply → lib.Url
  pub reply_status : Reply → ℕ
  pub reply_headers : Reply → List (Text × Option Text)
  pub read_up_to : ℕ → Reply → Option Text
  pub to_uppercase : Text → Text

unfoldable pub is_forbidden : Text → Bool
is_forbidden k = any (λ h. eq_ignore_ascii_case k h) forbidden_request_headers

unfoldable pub method_of : Text → Option Method
method_of m =
    if text_eq m (codes "GET")
    then some get
    else if text_eq m (codes "POST")
    then some post
    else if text_eq m (codes "PUT")
    then some put
    else if text_eq m (codes "DELETE")
    then some delete
    else if text_eq m (codes "PATCH")
    then some patch
    else if text_eq m (codes "HEAD")
    then some head
    else none

unfoldable pub loggable : UrlCrate → Text → Text
loggable lib url = elim (lib.parse url) [
  | some u ↦
      lib.as_str
        (lib.without_username (lib.without_password (lib.without_fragment (lib.without_query u))))
  | none ↦ codes "<unparseable url>"
]

module _ (lib : UrlCrate) (client : HttpClient lib) (http_timeout : ℕ) (m : UrlMatcher) where
  open client use {
    Reply, exchange, own_hops, is_redirection, location, reply_url, reply_status, reply_headers,
    read_up_to, to_uppercase,
  }

  unfoldable pub redirect_target : Reply → Option (lib.Url)
  redirect_target resp =
      if is_redirection resp
      then Options.◌>>=◌ (location resp) (λ l. lib.join (reply_url resp) l)
      else none

  unfoldable pub request_of : Method → Text → Request → Sent
  request_of method url req = record {
    method = method;
    url = url;
    headers = keep (λ h. not (is_forbidden h.0)) req.headers;
    body = req.body;
    timeout = http_timeout;
  }

  -- The answer, and all that has been sent.
  unfoldable pub send_once :
      Method → Text → Request → List Sent → Outcome FetchError Reply × List Sent
  unfolding request_of
  send_once method url req sent =
      let one = request_of method url req in
      elim (exchange sent one) [
        | none ↦ (err transport, sent ++ (one ∷ own_hops sent one))
        | some resp ↦ (ok resp, sent ++ (one ∷ own_hops sent one))
      ]

  -- `for _ in 0..MAX_REDIRECT_HOPS`, with the hops that are left; the URL is that of the last
  -- request.
  unfoldable pub follow :
      ℕ
      → Method
      → Request
      → Text
      → Reply
      → List Sent
      → Outcome FetchError (Text × Reply) × List Sent
  follow zero method req url resp sent = (ok (url, resp), sent)
  follow (suc hops) method req url resp sent = elim (redirect_target resp) [
    | none ↦ (ok (url, resp), sent)
    | some next ↦ elim (is_allowed lib m (lib.as_str next)) [
      | false ↦ (err (redirect_not_allowed (loggable lib (lib.as_str next))), sent)
      | true ↦
          let (answer, sent') = send_once method (lib.as_str next) req sent in
          elim answer [
            | err e ↦ (err e, sent')
            | ok resp' ↦ follow hops method req (lib.as_str next) resp' sent'
          ]
    ]
  ]

  text_headers : List (Text × Option Text) → List (Text × Text)
  text_headers = collect (λ h. Option.map (λ v. (h.0, v)) h.1)

  -- Step 5: the body under its ceiling.
  unfoldable pub bounded : Reply → Outcome FetchError Response
  unfolding text_headers
  bounded resp = elim (read_up_to (max_response_bytes + 1) resp) [
    | none ↦ err body_error
    | some body ↦
        if ltb max_response_bytes (length body)
        then err body_too_large
        else ok (record {
          status = reply_status resp;
          headers = text_headers (reply_headers resp);
          body = body;
        })
  ]

  -- Step 4: a client that followed redirects itself has landed somewhere that is not allowed.
  unfoldable pub off_list : Text → Reply → Bool
  off_list url resp =
      not (text_eq (lib.as_str (reply_url resp)) url)
      && not (is_allowed lib m (lib.as_str (reply_url resp)))

  unfoldable pub finish : Text → Reply → Outcome FetchError Response
  unfolding bounded off_list
  finish url resp =
      if off_list url resp
      then err (redirect_not_allowed (loggable lib (lib.as_str (reply_url resp))))
      else bounded resp

  unfoldable pub landed :
      Outcome FetchError (Text × Reply) × List Sent → Outcome FetchError Response × List Sent
  unfolding finish
  landed (err e, sent) = (err e, sent)
  landed (ok (url, resp), sent) = (finish url resp, sent)

  unfoldable pub run_request :
      Method → Request → List Sent → Outcome FetchError Response × List Sent
  unfolding send_once follow landed
  run_request method req sent =
      let (answer, sent') = send_once method req.url req sent in
      elim answer [
        | err e ↦ (err e, sent')
        | ok resp ↦ landed (follow max_redirect_hops method req req.url resp sent')
      ]

-- `fetch`, from the requests sent so far.
unfoldable pub fetch :
    (lib : UrlCrate)
    → Option (HttpClient lib)
    → ℕ
    → UrlMatcher
    → Request
    → List Sent
    → Outcome FetchError Response × List Sent
unfolding run_request method_of
fetch lib http_client http_timeout m req sent =
    if is_allowed lib m req.url
    then (elim http_client [
      | none ↦ (err no_client, sent)
      | some client ↦ elim (method_of (client.to_uppercase req.method)) [
        | none ↦ (err (unsupported_method (client.to_uppercase req.method)), sent)
        | some method ↦ run_request lib client http_timeout m method req sent
      ]
    ])
    else (err (not_allowed req.url), sent)
