-- ===== src/Secrets/Defs.antt =====
-- host_state_ports.rs, `secrets::get` and `broker::call_extension`. The backend is a parameter; the
-- uris that it is asked for stand in the answer. Of the errors the kind and what they name is kept.
use greentic_designer_extens.Base.{
  ℕ, zero, suc, Bool, true, false, not, ◌&&◌, ◌||◌, Option, none, some, List, [], ◌∷◌, Text, codes,
  text_eq, any, keep, leb, ltb, length, starts_with, trim_end_matches, split_on, if◌then◌else◌,
  ◌==◌,
}
use greentic_designer_extens.Base.Outcome.{Outcome, ok, err}

-- host_ports.rs
pub data SecretsError : Type 0 where
  not_found : (key : Text) → SecretsError
  backend : (message : Text) → SecretsError

abbrev pub SecretsBackend : Type 0
SecretsBackend = Text → Outcome SecretsError Text

pub data GetError : Type 0 where
  malformed permission_denied secret_not_found backend_error : (what : Text) → GetError

-- `str::contains` of a byte.
abbrev pub contains_byte : ℕ → Text → Bool
contains_byte b s = any (λ x. x == b) s

-- `s.as_bytes()[i]`; the code looks only below the length.
abbrev pub byte_at : ℕ → Text → Option ℕ
byte_at i [] = none
byte_at zero (x ∷ s) = some x
byte_at (suc i) (x ∷ s) = byte_at i s

-- `split_once(b).map_or(s, |(_, rest)| rest)`.
abbrev pub after_first : ℕ → Text → Option Text
after_first b [] = none
after_first b (x ∷ s) = if x == b then some s else after_first b s

-- `trim_start_matches` of a byte.
abbrev pub trim_start_byte : ℕ → Text → Text
trim_start_byte b [] = []
trim_start_byte b (x ∷ s) = if x == b then trim_start_byte b s else x ∷ s

abbrev pub is_empty : Text → Bool
is_empty [] = true
is_empty (x ∷ s) = false

unfoldable pub uri_is_plain : Text → Bool
unfolding split_on
uri_is_plain uri =
    not (contains_byte b'%' uri)
    && not (
        any (λ segment. text_eq segment (codes ".") || text_eq segment (codes ".."))
          (split_on b'/' uri))

unfoldable pub after_scheme : Text → Text
after_scheme declared = elim (after_first b':' declared) [ none ↦ declared | some rest ↦ rest ]

unfoldable pub declaration_is_specific : Text → Bool
unfolding after_scheme trim_end_matches
declaration_is_specific declared =
    not (is_empty (trim_end_matches (codes "/") (trim_start_byte b'/' (after_scheme declared))))

-- The test of one declaration.
unfoldable pub covers : Text → Text → Bool
covers uri allowed =
    text_eq uri allowed
    || (ltb (length allowed) (length uri)
        && (starts_with allowed uri
            && elim (byte_at (length allowed) uri) [ none ↦ false | some x ↦ x == b'/' ]))

unfoldable pub permitted : List Text → Text → Bool
unfolding declaration_is_specific covers
permitted secrets uri = any (covers uri) (keep declaration_is_specific secrets)

abbrev pub answer : Outcome SecretsError Text → Outcome GetError Text
answer (ok value) = ok value
answer (err (not_found k)) = err (secret_not_found k)
answer (err (backend message)) = err (backend_error message)

-- The answer, and the uris that the backend was asked for.
unfoldable pub get_secret : SecretsBackend → List Text → Text → Outcome GetError Text × List Text
unfolding uri_is_plain permitted
get_secret secrets_backend secrets uri =
    if not (uri_is_plain uri)
    then (err (malformed uri), [])
    else if not (permitted secrets uri)
    then (err (permission_denied uri), [])
    else (answer (secrets_backend uri), uri ∷ [])

abbrev pub max_broker_depth : ℕ
max_broker_depth = 8

pub data BrokerDenied : Type 0 where
  may_not_call : (kind : Text) → BrokerDenied
  max_depth_exceeded : (depth : ℕ) → BrokerDenied
  no_runtime : BrokerDenied
  not_implemented : (target_id function : Text) → BrokerDenied

-- `runtime` is whether the weak reference to the runtime can be upgraded.
unfoldable pub call_extension :
    List Text → ℕ → Bool → Text → Text → Text → Outcome BrokerDenied Text
call_extension kinds depth runtime kind target_id function =
    if not (any (λ k. text_eq k kind) kinds)
    then err (may_not_call kind)
    else if leb max_broker_depth depth
    then err (max_depth_exceeded depth)
    else if not runtime
    then err no_runtime
    else err (not_implemented target_id function)
