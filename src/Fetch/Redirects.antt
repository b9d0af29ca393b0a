-- ===== src/Fetch/Redirects.antt =====
-- What leaves the host during a fetch, and what comes back.
use greentic_designer_extens.Base.{
  ℕ, zero, suc, ◌≤◌, ◌≡◌, refl, ap, inl, inr, true, false, not, some, List, [], ◌∷◌, ◌++◌, Memᴰ,
  All, All-of_mem, mem-keep, arith, Text, text_eq, text_eq_iff, length, Bool-cases, Option-cases,
}
use greentic_designer_extens.Base.Outcome.{Outcome, ok, err}
use greentic_designer_extens.Url.Crate.{UrlCrate}
use greentic_designer_extens.Url.Matcher.{UrlMatcher, is_allowed}
use greentic_designer_extens.Fetch.Defs.{
  Method, Request, Sent, Response, FetchError, HttpClient, is_forbidden, method_of, redirect_target,
  request_of, send_once, follow, finish, landed, off_list, bounded, run_request, fetch,
  max_response_bytes, max_redirect_hops, transport,
}

-- What has been sent after requests of the host: each of them, and the hops that the client makes
-- itself.
unfoldable pub wired : {lib : UrlCrate} → HttpClient lib → List Sent → List Sent → List Sent
wired client sent [] = sent
wired client sent (s ∷ made) = wired client (sent ++ (s ∷ client.own_hops sent s)) made

-- A run from `sent` to `sent'` made at most `most` requests, each of them satisfies `P`, and nothing
-- else is sent but the hops that the client makes itself.
pub record Extends {lib : UrlCrate} (client : HttpClient lib) (P : Sent → Type 0) (most : ℕ)
    (sent sent' : List Sent) : Type 0 where
  pub made : List Sent
  pub grown : sent' ≡ wired client sent made
  pub each : All P made
  pub few : length made ≤ most

Extends-none :
    {lib : UrlCrate} (client : HttpClient lib) (P : Sent → Type 0) (most : ℕ) (sent : List Sent)
    → Extends client P most sent sent
unfolding wired
Extends-none client P most sent = record { made = []; grown = refl; each = tt; few = omega arith }

Extends-more :
    {lib : UrlCrate} (client : HttpClient lib) (P : Sent → Type 0) (most : ℕ) (s : Sent)
    (sent sent' : List Sent)
    → P s
    → Extends client P most (sent ++ (s ∷ client.own_hops sent s)) sent'
    → Extends client P (suc most) sent sent'
unfolding wired
Extends-more client P most s sent sent' p x = record {
  made = s ∷ x.made;
  grown = x.grown;
  each = (p, x.each);
  few = omega (arith, x.few);
}

module _ (lib : UrlCrate) (client : HttpClient lib) (http_timeout : ℕ) (m : UrlMatcher) where
  open client use {Reply, exchange, reply_url}

  -- A request that the fetch of `req` may make: to an allowed URL, with the method and the body of
  -- `req`, its headers less the forbidden ones, and the timeout of the store.
  pub record Permitted (req : Request) (s : Sent) : Type 0 where
    pub allowed : is_allowed lib m s.url ≡ true
    pub same_method : method_of (client.to_uppercase req.method) ≡ some s.method
    pub same_body : s.body ≡ req.body
    pub same_timeout : s.timeout ≡ http_timeout
    pub own_headers : All (λ h. Memᴰ h req.headers × (is_forbidden h.0 ≡ false)) s.headers

  request_of-Permitted :
      (method : Method) (url : Text) (req : Request)
      → method_of (client.to_uppercase req.method) ≡ some method
      → is_allowed lib m url ≡ true
      → Permitted req (request_of lib client http_timeout m method url req)
  unfolding request_of
  request_of-Permitted method url req known h = record {
    allowed = h;
    same_method = known;
    same_body = refl;
    same_timeout = refl;
    own_headers = All-of_mem _ _ (λ x i.
        let (j, e) = mem-keep (λ y. not (is_forbidden y.0)) x req.headers i in (j, ground arith));
  }

  send_once_cases {ℓ} :
      (C : Outcome FetchError Reply × List Sent → Type ℓ) (method : Method) (url : Text)
      (req : Request) (sent : List Sent)
      → C (
        err transport,
        sent
            ++ (request_of lib client http_timeout m method url req
                ∷ client.own_hops sent (request_of lib client http_timeout m method url req)),
      )
      → ((resp : Reply)
          → C (
            ok resp,
            sent
                ++ (request_of lib client http_timeout m method url req
                    ∷ client.own_hops sent (request_of lib client http_timeout m method url req)),
          ))
      → C (send_once lib client http_timeout m method url req sent)
  unfolding send_once
  send_once_cases C method url req sent failed answered =
      elim (Option-cases (exchange sent (request_of lib client http_timeout m method url req))) [
        | inl e ↦ rw (e, send_once) failed
        | inr (resp, e) ↦ rw (e, send_once) (answered resp)
      ]

  -- What a run of the loop guarantees, from the URL of the last request.
  record Followed (req : Request) (most : ℕ) (sent : List Sent)
      (r : Outcome FetchError (Text × Reply) × List Sent) : Type 0 where
    extends : Extends client (Permitted req) most sent r.1
    lands : (url : Text) (resp : Reply) → r.0 ≡ ok (url, resp) → is_allowed lib m url ≡ true

  Followed-stop :
      (req : Request) (most : ℕ) (sent : List Sent) (url : Text) (resp : Reply)
      → is_allowed lib m url ≡ true
      → Followed req most sent (ok (url, resp), sent)
  Followed-stop req most sent url resp h = record {
    extends = Extends-none client _ most sent;
    lands = λ u r e. let same : url ≡ u = ap (url_or []) e in rw (← same) h;
  }
    where
      url_or : Text → Outcome FetchError (Text × Reply) → Text
      url_or d (ok (u, r)) = u
      url_or d (err e) = d

  Followed-fail :
      (req : Request) (most : ℕ) (sent sent' : List Sent) (e : FetchError)
      → Extends client (Permitted req) most sent sent'
      → Followed req most sent (err e, sent')
  Followed-fail req most sent sent' e x = record { extends = x; lands = λ u r f. cc (f) }

  Followed-more :
      (req : Request) (most : ℕ) (s : Sent) (sent : List Sent)
      (r : Outcome FetchError (Text × Reply) × List Sent)
      → Permitted req s
      → Followed req most (sent ++ (s ∷ client.own_hops sent s)) r
      → Followed req (suc most) sent r
  Followed-more req most s sent r p f = record {
    extends = Extends-more client _ most s sent r.1 p f.extends;
    lands = f.lands;
  }

  follow-Followed :
      (hops : ℕ) (method : Method) (req : Request) (url : Text) (resp : Reply) (sent : List Sent)
      → method_of (client.to_uppercase req.method) ≡ some method
      → is_allowed lib m url ≡ true
      → Followed req hops sent (follow lib client http_timeout m hops method req url resp sent)
  unfolding follow
  follow-Followed zero method req url resp sent known h = Followed-stop req 0 sent url resp h
  follow-Followed (suc hops) method req url resp sent known h =
      elim (Option-cases (redirect_target lib client http_timeout m resp)) [
        | inl e ↦ rw (e, follow) (Followed-stop req (suc hops) sent url resp h)
        | inr (next, e) ↦ elim (Bool-cases (is_allowed lib m (lib.as_str next))) [
          | inl good ↦
              rw (e, good, follow)
                (hop next good
                  (λ r sent'. follow-Followed hops method req (lib.as_str next) r sent' known good))
          | inr bad ↦
              rw (e, bad, follow)
                (Followed-fail req (suc hops) sent sent _ (Extends-none client _ _ sent))
        ]
      ]
    where
      -- What follows the answer to the next request.
      go_on :
          lib.Url
          → Outcome FetchError Reply × List Sent
          → Outcome FetchError (Text × Reply) × List Sent
      go_on next p = elim p.0 [
        | err e ↦ (err e, p.1)
        | ok resp' ↦ follow lib client http_timeout m hops method req (lib.as_str next) resp' p.1
      ]

      hop :
          (next : lib.Url)
          → is_allowed lib m (lib.as_str next) ≡ true
          → ((r : Reply) (sent' : List Sent)
              → Followed req hops sent'
                  (follow lib client http_timeout m hops method req (lib.as_str next) r sent'))
          → Followed req
              (suc hops)
              sent
              (go_on next (send_once lib client http_timeout m method (lib.as_str next) req sent))
      hop next good rest =
          let s = request_of lib client http_timeout m method (lib.as_str next) req in
          let p = request_of-Permitted method (lib.as_str next) req known good in
          send_once_cases (λ a. Followed req (suc hops) sent (go_on next a)) method
            (lib.as_str next) req sent
            (Followed-fail req (suc hops) sent _ _
              (Extends-more client _ hops s sent _ p (Extends-none client _ hops _)))
            (λ resp'. Followed-more req hops s sent _ p (rest resp' _))

  -- What a response that is handed to the guest guarantees: it is the answer of a reply from an
  -- allowed URL, and its body is within the cap.
  pub record Delivered (r : Response) : Type 0 where
    pub reply : Reply
    pub from_allowed : is_allowed lib m (lib.as_str (reply_url reply)) ≡ true
    pub same_status : r.status ≡ client.reply_status reply
    pub capped : length r.body ≤ max_response_bytes

  off_list-allowed :
      (url : Text) (resp : Reply)
      → is_allowed lib m url ≡ true
      → off_list lib client http_timeout m url resp ≡ false
      → is_allowed lib m (lib.as_str (reply_url resp)) ≡ true
  unfolding off_list
  off_list-allowed url resp h e = elim (Bool-cases (text_eq (lib.as_str (reply_url resp)) url)) [
    | inl same ↦ rw ((text_eq_iff (lib.as_str (reply_url resp)) url).0 same) h
    | inr away ↦ ground arith
  ]

  bounded-Delivered :
      (resp : Reply) (r : Response)
      → is_allowed lib m (lib.as_str (reply_url resp)) ≡ true
      → bounded lib client http_timeout m resp ≡ ok r
      → Delivered r
  unfolding bounded
  bounded-Delivered resp r h e = record {
    reply = resp;
    from_allowed = h;
    same_status = ground arith;
    capped = ground arith;
  }

  finish-Delivered :
      (url : Text) (resp : Reply) (r : Response)
      → is_allowed lib m url ≡ true
      → finish lib client http_timeout m url resp ≡ ok r
      → Delivered r
  unfolding finish
  finish-Delivered url resp r h e =
      elim (Bool-cases (off_list lib client http_timeout m url resp)) [
        | inl off ↦ cc (rw off at e)
        | inr on ↦ bounded-Delivered resp r (off_list-allowed url resp h on) (rw on at e)
      ]

  -- A whole fetch: what was sent, and what came back.
  pub record Fetched (req : Request) (sent : List Sent)
      (r : Outcome FetchError Response × List Sent) : Type 0 where
    pub extends : Extends client (Permitted req) (suc max_redirect_hops) sent r.1
    pub delivers : (resp : Response) → r.0 ≡ ok resp → Delivered resp

  landed-Fetched :
      (req : Request) (s : Sent) (sent : List Sent) (a : Outcome FetchError (Text × Reply))
      (sent' : List Sent)
      → Permitted req s
      → Followed req max_redirect_hops (sent ++ (s ∷ client.own_hops sent s)) (a, sent')
      → Fetched req sent (landed lib client http_timeout m (a, sent'))
  unfolding landed
  landed-Fetched req s sent (err e) sent' p f = record {
    extends = Extends-more client _ max_redirect_hops s sent sent' p f.extends;
    delivers = λ r x. cc (x);
  }
  landed-Fetched req s sent (ok (url, resp)) sent' p f = record {
    extends = Extends-more client _ max_redirect_hops s sent sent' p f.extends;
    delivers = λ r x. finish-Delivered url resp r (f.lands url resp refl) x;
  }

  run_request-Fetched :
      (method : Method) (req : Request) (sent : List Sent)
      → method_of (client.to_uppercase req.method) ≡ some method
      → is_allowed lib m req.url ≡ true
      → Fetched req sent (run_request lib client http_timeout m method req sent)
  unfolding run_request
  run_request-Fetched method req sent known h =
      let s = request_of lib client http_timeout m method req.url req in
      let p = request_of-Permitted method req.url req known h in
      send_once_cases (λ a. Fetched req sent (go_on a)) method req.url req sent
        (record {
          extends = Extends-more client _ max_redirect_hops s sent _ p (Extends-none client _ _ _);
          delivers = λ r x. cc (x);
        })
        (λ resp. landed-Fetched req s sent _ _ p (
          follow-Followed max_redirect_hops method req req.url resp
            (sent ++ (s ∷ client.own_hops sent s)) known h))
    where
      go_on : Outcome FetchError Reply × List Sent → Outcome FetchError Response × List Sent
      go_on a = elim a.0 [
        | err e ↦ (err e, a.1)
        | ok resp ↦
            landed lib client http_timeout m
              (follow lib client http_timeout m max_redirect_hops method req req.url resp a.1)
      ]

  Fetched-refused :
      (req : Request) (sent : List Sent) (e : FetchError) → Fetched req sent (err e, sent)
  Fetched-refused req sent e = record {
    extends = Extends-none client _ _ sent;
    delivers = λ r x. cc (x);
  }

  -- Whatever the request and the servers, a fetch makes at most eleven requests, each of them to an
  -- allowed URL, with the method and the body asked for, with the timeout that is set and with headers
  -- of the request that are not forbidden, and nothing else is sent but the hops that a client makes which follows
  -- redirects itself; and a response that it returns has the status of a reply from an allowed URL and
  -- a body within the cap.
  pub fetch-Fetched :
      (req : Request) (sent : List Sent)
      → Fetched req sent (fetch lib (some client) http_timeout m req sent)
  unfolding fetch
  fetch-Fetched req sent = elim (Bool-cases (is_allowed lib m req.url)) [
    | inr bad ↦ rw bad (Fetched-refused req sent _)
    | inl good ↦ elim (Option-cases (method_of (client.to_uppercase req.method))) [
      | inl e ↦ rw (good, e, fetch) (Fetched-refused req sent _)
      | inr (method, e) ↦ rw (good, e, fetch) (run_request-Fetched method req sent e good)
    ]
  ]
