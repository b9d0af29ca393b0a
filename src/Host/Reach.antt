-- ===== src/Host/Reach.antt =====
-- What an extension can reach in the store that is built for a dispatch.
use mathlib.Core.List.{append_assoc, append-nil}
use greentic_designer_extens.Base.{
  ℕ, ◌≤◌, ◌*◌, ◌≡◌, ◌≢◌, refl, sym, ap, ◌∙◌, inl, inr, Option, none, some, List, [], ◌∷◌, ◌++◌, All,
  arith, Text, length, Bool-cases,
}
use greentic_designer_extens.Base.Outcome.{Outcome}
use greentic_designer_extens.Url.Crate.{UrlCrate}
use greentic_designer_extens.Url.Matcher.{is_allowed}
use greentic_designer_extens.Net.Policy.{effective_url_matcher}
use greentic_designer_extens.Net.Ceiling.{EffectiveGrant, effective_url_matcher_iff}
use greentic_designer_extens.Fetch.Defs.{HttpClient, Request, Sent, FetchError, Response, fetch}
use greentic_designer_extens.Fetch.Redirects.{wired, Extends, Permitted, fetch-Fetched}
use greentic_designer_extens.Limits.Defs.{http_timeout_for}
use greentic_designer_extens.Limits.Deadline.{
  host_call_within_deadline, IsHostCall, http_timeout_for-IsHostCall,
}
use greentic_designer_extens.Llm.Defs.{HostCallContext}
use greentic_designer_extens.Host.Defs.{Permissions, HostOverrides, HostState, Store, build_store}

-- The client follows no redirect itself (`redirect::Policy::none()`).
abbrev pub FollowsNone : {lib : UrlCrate} → HttpClient lib → Type 0
FollowsNone client = (sent : List Sent) (s : Sent) → client.own_hops sent s ≡ []

-- From `sent` to `sent'`, at most `most` requests are sent, and each of them satisfies `P`.
pub record Sends (P : Sent → Type 0) (most : ℕ) (sent sent' : List Sent) : Type 0 where
  pub made : List Sent
  pub grown : sent' ≡ sent ++ made
  pub each : All P made
  pub few : length made ≤ most

wired-append :
    {lib : UrlCrate} (client : HttpClient lib) (sent made : List Sent)
    → FollowsNone client
    → wired client sent made ≡ sent ++ made
unfolding wired
wired-append client sent [] quiet = sym (append-nil sent)
wired-append client sent (s ∷ made) quiet =
    wired-append client (sent ++ (s ∷ client.own_hops sent s)) made quiet
    ∙ (ap (λ hops. (sent ++ (s ∷ hops)) ++ made) (quiet sent s) ∙ append_assoc sent (s ∷ []) made)

All-weakened :
    (P Q : Sent → Type 0) (xs : List Sent) → ((s : Sent) → P s → Q s) → All P xs → All Q xs
All-weakened P Q [] f a = tt
All-weakened P Q (x ∷ xs) f (p, a) = (f x p, All-weakened P Q xs f a)

Extends-Sends :
    {lib : UrlCrate} (client : HttpClient lib) (P Q : Sent → Type 0) (most : ℕ)
    (sent sent' : List Sent)
    → FollowsNone client
    → ((s : Sent) → P s → Q s)
    → Extends client P most sent sent'
    → Sends Q most sent sent'
Extends-Sends client P Q most sent sent' quiet f e = record {
  made = e.made;
  grown = e.grown ∙ wired-append client sent e.made quiet;
  each = All-weakened P Q e.made f e.each;
  few = e.few;
}

module _ (lib : UrlCrate) where
  -- The fetch of a guest that runs in the store.
  abbrev pub host_fetch :
      HostState lib → Request → List Sent → Outcome FetchError Response × List Sent
  host_fetch h req sent = fetch lib h.http_client h.http_timeout h.url_matcher req sent

  -- A pattern of the declaration grants the URL, within the list of the host, and the timeout is that of
  -- the dispatch or two minutes, and is within the deadline of the store, in ticks of a second.
  pub record Granted (permissions : Permissions) (o : HostOverrides lib)
      (dispatch_timeout : Option ℕ) (store : Store lib) (s : Sent) : Type 0 where
    pub granted : EffectiveGrant lib permissions.network o.url_matcher s.url
    pub brief : IsHostCall dispatch_timeout s.timeout
    pub in_time : s.timeout ≤ store.epoch_deadline * 1_000_000_000

  silent :
      (o : HostOverrides lib) (declared : List Text) (timeout : ℕ) (req : Request)
      (sent : List Sent)
      → (fetch lib none timeout (effective_url_matcher lib declared o.url_matcher) req sent).1
        ≡ sent
  unfolding fetch
  silent o declared timeout req sent =
      elim (Bool-cases
        (is_allowed lib (effective_url_matcher lib declared o.url_matcher) req.url)) [
          | inl e ↦ rw (e, fetch) refl
          | inr e ↦ rw (e, fetch) refl
        ]

  -- A request that the fetch may make, by the store's matcher and timeout.
  permitted-Granted :
      (extension_id : Text) (permissions : Permissions) (o : HostOverrides lib)
      (ctx : HostCallContext) (dispatch_timeout : Option ℕ) (client : HttpClient lib)
      (req : Request) (s : Sent)
      → permissions.network ≢ []
      → Permitted lib client
          (http_timeout_for dispatch_timeout)
          (effective_url_matcher lib permissions.network o.url_matcher)
          req
          s
      → Granted permissions o dispatch_timeout
          (build_store lib extension_id permissions o ctx dispatch_timeout)
          s
  unfolding build_store
  permitted-Granted extension_id permissions o ctx dispatch_timeout client req s ne p = record {
    granted =
        (effective_url_matcher_iff lib permissions.network o.url_matcher s.url ne).0 p.allowed;
    brief = rw p.same_timeout (http_timeout_for-IsHostCall dispatch_timeout);
    in_time = rw p.same_timeout (host_call_within_deadline dispatch_timeout);
  }

  granted_by :
      (extension_id : Text) (permissions : Permissions) (o : HostOverrides lib)
      (ctx : HostCallContext) (dispatch_timeout : Option ℕ) (client : Option (HttpClient lib))
      (req : Request) (sent : List Sent)
      → permissions.network ≢ []
      → ((x : HttpClient lib) → client ≡ some x → FollowsNone x)
      → Sends
          (Granted permissions o dispatch_timeout
            (build_store lib extension_id permissions o ctx dispatch_timeout))
          11
          sent
          (fetch lib client
            (http_timeout_for dispatch_timeout)
            (effective_url_matcher lib permissions.network o.url_matcher)
            req
            sent).1
  granted_by extension_id permissions o ctx dispatch_timeout none req sent ne quiet =
      rw (silent o permissions.network (http_timeout_for dispatch_timeout) req sent)
        (record { made = []; grown = sym (append-nil sent); each = tt; few = omega arith })
  granted_by extension_id permissions o ctx dispatch_timeout (some client) req sent ne quiet =
      let m = effective_url_matcher lib permissions.network o.url_matcher in
      Extends-Sends client _ _ 11 sent _ (quiet client refl)
        (λ s p. permitted-Granted extension_id permissions o ctx dispatch_timeout client req s ne p)
        ((fetch-Fetched lib client (http_timeout_for dispatch_timeout) m req sent).extends)

  -- In the store that is built for a dispatch of an extension that declares network patterns, with a
  -- client that follows no redirect itself, a fetch sends at most eleven requests, each to a URL that a
  -- pattern of the declaration grants within the list of the host, where that is not empty, and each
  -- with the timeout of the dispatch or two minutes, whichever is shorter, which is at most the ticks of
  -- the dispatch's deadline.
  pub build_store-Granted :
      (extension_id : Text) (permissions : Permissions) (o : HostOverrides lib)
      (ctx : HostCallContext) (dispatch_timeout : Option ℕ) (req : Request) (sent : List Sent)
      → permissions.network ≢ []
      → ((client : HttpClient lib) → o.http_client ≡ some client → FollowsNone client)
      → Sends
          (Granted permissions o dispatch_timeout
            (build_store lib extension_id permissions o ctx dispatch_timeout))
          11
          sent
          (host_fetch
            (build_store lib extension_id permissions o ctx dispatch_timeout).state
            req
            sent).1
  unfolding build_store
  build_store-Granted extension_id permissions o ctx dispatch_timeout req sent ne quiet =
      granted_by extension_id permissions o ctx dispatch_timeout o.http_client req sent ne quiet
