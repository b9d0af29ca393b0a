-- ===== src/Dispatch/Called.antt =====
-- A function of an interface that has two types, by the version of the interface: which one a host calls.
use greentic_designer_extens.Base.{
  ℕ, ◌+◌, ◌≡◌, ◌≢◌, refl, ap, inl, inr, false, none, some, List, ◌∷◌, arith, Text, text_eq,
  text_eq_iff, Bool-cases, Option-cases, if◌then◌else◌,
}
use greentic_designer_extens.Base.Outcome.{Outcome, Outcome-cases, ok, err, ◌>>=◌, ◌>>◌}
use greentic_designer_extens.Capability.Contract.{Semver, Contract}
use greentic_designer_extens.Llm.Defs.{HostCallContext}
use greentic_designer_extens.Types.Defs.{HostExtensionError}
use greentic_designer_extens.Types.Names.{wire}
use greentic_designer_extens.Runtime.Defs.{
  RuntimeError, wasmtime, not_found, extension, LoadedExtension, ExtensionRuntime, find_id, lookup,
}
use greentic_designer_extens.Dispatch.Guest.{
  Guest, resolve_iface_versions, resolve_func, dispatch_instance_ctx, surface_as, surface,
}
use greentic_designer_extens.Dispatch.Resolved.{
  minor, descending, name_at, IsNewest, Unexported, resolve_iface_versions_lem,
}

-- What a guest's answer comes to: a trap is an error of wasmtime; a value is passed on, as `Good` has it;
-- an error keeps its variant and its message, and is given to `fail`.
pub data Answered {E A B : Type 0} (Good : A → Outcome RuntimeError B → Type 0)
    (fail : HostExtensionError → Outcome RuntimeError B) (variant : E → Text × Text)
    : Outcome Text (Outcome E A) → Outcome RuntimeError B → Type 0 where
  trap : (m : Text) → Answered Good fail variant (err m) (err (wasmtime m))
  value : (a : A) (r : Outcome RuntimeError B) → Good a r → Answered Good fail variant (ok (ok a)) r
  failure :
      (e : E) (x : HostExtensionError)
      → wire x ≡ variant e
      → Answered Good fail variant (ok (err e)) (fail x)

-- The error of an extension, as one of the runtime.
abbrev pub surfaced : {B : Type 0} → HostExtensionError → Outcome RuntimeError B
surfaced x = err (extension x)

abbrev pub Same : {A : Type 0} → A → Outcome RuntimeError A → Type 0
Same a r = r ≡ ok a

pub surface-Answered :
    {E A : Type 0} (f : E → HostExtensionError) (variant : E → Text × Text)
    → ((e : E) → wire (f e) ≡ variant e)
    → (x : Outcome Text (Outcome E A)) → Answered Same surfaced variant x (surface f x)
unfolding surface
surface-Answered f variant h (err m) = trap m
surface-Answered f variant h (ok (ok a)) = value a (ok a) refl
surface-Answered f variant h (ok (err e)) = failure e (f e) (h e)

pub surface_as-Answered :
    {E A B : Type 0} (Good : A → Outcome RuntimeError B → Type 0) (k : A → B)
    (f : E → HostExtensionError) (variant : E → Text × Text)
    → ((a : A) → Good a (ok (k a)))
    → ((e : E) → wire (f e) ≡ variant e)
    → (x : Outcome Text (Outcome E A)) → Answered Good surfaced variant x (surface_as k f x)
unfolding surface_as
surface_as-Answered Good k f variant good h (err m) = trap m
surface_as-Answered Good k f variant good h (ok (ok a)) = value a (ok (k a)) (good a)
surface_as-Answered Good k f variant good h (ok (err e)) = failure e (f e) (h e)

-- What the call comes to in a guest: the interface or the function is missing, or the newest version
-- that is exported is called, the version 0.new.0 at its own type.
pub data Called {A : Type 0} (g : Guest) (base : Text) (top : ℕ) (func : Text) (new : ℕ)
    (New Old : Text → Outcome RuntimeError A → Type 0) : Outcome RuntimeError A → Type 0 where
  not_exported : Unexported g base top → Called g base top func new New Old (err (wasmtime base))
  no_function :
      (n : ℕ)
      → IsNewest g base top n
      → g.has_func (name_at base n) func ≡ false
      → Called g base top func new New Old (err (wasmtime func))
  at_new :
      (n : ℕ) (r : Outcome RuntimeError A)
      → IsNewest g base top n
      → n ≡ new
      → New (name_at base n) r
      → Called g base top func new New Old r
  at_old :
      (n : ℕ) (r : Outcome RuntimeError A)
      → IsNewest g base top n
      → n ≢ new
      → Old (name_at base n) r
      → Called g base top func new New Old r

unfoldable pub versioned :
    {A : Type 0}
    → Guest
    → Text
    → List Text
    → Text
    → Text
    → (Text → Outcome RuntimeError A)
    → (Text → Outcome RuntimeError A)
    → Outcome RuntimeError A
unfolding resolve_iface_versions resolve_func
versioned g base versions func new call_new call_old = do
  found ← resolve_iface_versions g base versions
  resolve_func g found.0 func
  (if text_eq found.1 new then call_new found.0 else call_old found.0)

minor_injective : (n m : ℕ) → minor n ≡ minor m → n ≡ m
minor_injective n m e = let same : 48 + n ≡ 48 + m = ap third e in omega (arith, same)
  where
    third : Text → ℕ
    third (a ∷ b ∷ c ∷ s) = c
    third _ = 0

pub versioned-Called :
    {A : Type 0} (g : Guest) (base : Text) (top : ℕ) (func : Text) (new : ℕ)
    (New Old : Text → Outcome RuntimeError A → Type 0)
    (call_new call_old : Text → Outcome RuntimeError A)
    → ((i : Text) → New i (call_new i))
    → ((i : Text) → Old i (call_old i))
    → Called g base top func new New Old
        (versioned g base (descending top) func (minor new) call_new call_old)
unfolding versioned resolve_func
versioned-Called g base top func new New Old call_new call_old news olds =
    elim (resolve_iface_versions_lem g base top) [
      | inr (none_there, failed) ↦ rw (failed, versioned) (not_exported none_there)
      | inl (n, newest, found) ↦ elim (Bool-cases (g.has_func (name_at base n) func)) [
        | inr missing ↦ rw (found, versioned, missing) (no_function n newest missing)
        | inl there ↦ elim (Bool-cases (text_eq (minor n) (minor new))) [
          | inl same ↦
              rw (found, versioned, there, same)
                (at_new n _ newest (minor_injective n new ((text_eq_iff _ _).0 same))
                  (news (name_at base n)))
          | inr other ↦
              rw (found, versioned, there, other)
                (at_old n _ newest (λ e. cc (other, (text_eq_iff _ _).1 (ap minor e)))
                  (olds (name_at base n)))
        ]
      ]
    ]

module _ (s : Semver) (c : Contract)
    (build : HostCallContext → LoadedExtension s c → Outcome Text Guest) where
  -- What a call into an extension comes to: the extension is unknown, has no instance, or is reached.
  pub data Invoked {A : Type 0} (r : ExtensionRuntime s c) (ext_id : Text) (ctx : HostCallContext)
      (InGuest : Guest → Outcome RuntimeError A → Type 0) : Outcome RuntimeError A → Type 0 where
    unknown :
        find_id s c ext_id r.loaded ≡ none → Invoked r ext_id ctx InGuest (err (not_found ext_id))
    unbuilt :
        (ext : LoadedExtension s c) (m : Text)
        → find_id s c ext_id r.loaded ≡ some ext
        → build ctx ext ≡ err m
        → Invoked r ext_id ctx InGuest (err (wasmtime m))
    reached :
        (ext : LoadedExtension s c) (g : Guest) (answer : Outcome RuntimeError A)
        → find_id s c ext_id r.loaded ≡ some ext
        → build ctx ext ≡ ok g
        → InGuest g answer
        → Invoked r ext_id ctx InGuest answer

  pub invoked_lem :
      {A : Type 0} (r : ExtensionRuntime s c) (ext_id : Text) (ctx : HostCallContext)
      (InGuest : Guest → Outcome RuntimeError A → Type 0) (run : Guest → Outcome RuntimeError A)
      → ((g : Guest) → InGuest g (run g))
      → Invoked r ext_id ctx InGuest (dispatch_instance_ctx s c build r ext_id ctx >>= run)
  unfolding dispatch_instance_ctx lookup
  invoked_lem r ext_id ctx InGuest run each = elim (Option-cases (find_id s c ext_id r.loaded)) [
    | inl bad ↦ rw (bad, dispatch_instance_ctx, lookup) (unknown bad)
    | inr (ext, found) ↦ elim (Outcome-cases (build ctx ext)) [
      | inl (m, bad) ↦ rw (found, dispatch_instance_ctx, lookup, bad) (unbuilt ext m found bad)
      | inr (g, built) ↦
          rw (found, dispatch_instance_ctx, lookup, built) (reached ext g _ found built (each g))
    ]
  ]
