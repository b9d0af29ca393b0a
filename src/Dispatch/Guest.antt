-- ===== src/Dispatch/Guest.antt =====
-- runtime.rs, from `dispatch_instance` on: an instance of an extension, and how a function of one of its
-- interfaces is found. What a guest exports and answers is a parameter, with one signature for each type
-- at which the host calls a function; a call that fails answers wasmtime's message. The messages of the
-- host's own errors are the names that they are about. The warning of an old contract is left out.
use greentic_designer_extens.Base.{ℕ, Bool, Option, List, [], ◌∷◌, ◌++◌, Text, codes, if◌then◌else◌}
use greentic_designer_extens.Base.Outcome.{Outcome, ok, err}
use greentic_designer_extens.Capability.Contract.{Semver, Contract}
use greentic_designer_extens.Llm.Defs.{HostCallContext}
use greentic_designer_extens.Runtime.Defs.{
  RuntimeError, wasmtime, extension, LoadedExtension, ExtensionRuntime, lookup,
}
use greentic_designer_extens.Types.Wit
use greentic_designer_extens.Types.Wit.{ErrorV1, ErrorV2}
use greentic_designer_extens.Types.Defs.{HostExtensionError}

pub data Direction : Type 0 where
  inbound outbound : Direction

pub record GuardrailInput : Type 0 where
  pub direction : Direction
  pub content : Text
  pub agent_id : Text
  pub session_id : Text
  pub tenant_id : Text
  pub env_id : Text
  pub context : Option Text

pub data Verdict : Type 0 where
  accept : Verdict
  update : (content : Text) → Verdict
  deny : (code message : Text) → (details : Option Text) → Verdict

pub data Signature : Type 0 where
  invoke_v1 invoke_v2 list_tools validate_content evaluate : Signature
  list_roles validate_role compile_v2 compile_v3 : Signature
  deploy_v1 deploy_v2 poll_v1 poll_v2 rollback_v1 rollback_v2 : Signature
  credentials_call schema_v1 schema_v2 targets_call : Signature
  fragments_call entries_call entry_v1 entry_v2 suggest_call : Signature
  render_v1 render_v2 descriptor_call compose_v1 compose_v2 report_call templates_call : Signature

abbrev pub CompileArgs : Type 0
CompileArgs = Text × (Wit.TargetKind × (Text × Option Wit.CompileContext))

abbrev pub Args : Signature → Type 0
Args invoke_v1 = Text × Text
Args invoke_v2 = Text × Text
Args list_tools = Unit
Args validate_content = Text × Text
Args evaluate = GuardrailInput
Args list_roles = Unit
Args validate_role = Text × Text
Args compile_v2 = CompileArgs
Args compile_v3 = CompileArgs
Args deploy_v1 = Wit.DeployRequest
Args deploy_v2 = Wit.DeployRequest
Args poll_v1 = Text
Args poll_v2 = Text
Args rollback_v1 = Text
Args rollback_v2 = Text
Args credentials_call = Text × Text
Args schema_v1 = Text
Args schema_v2 = Text
Args targets_call = Unit
Args fragments_call = Unit
Args entries_call = Option Text
Args entry_v1 = Text
Args entry_v2 = Text
Args suggest_call = Text × ℕ
Args render_v1 = Text × (Text × Wit.DesignerSession)
Args render_v2 = Text × (Text × Wit.DesignerSession)
Args descriptor_call = Unit
Args compose_v1 = Text
Args compose_v2 = Text
Args report_call = Text
Args templates_call = Unit

abbrev pub Answer : Signature → Type 0
Answer invoke_v1 = Outcome ErrorV1 Text
Answer invoke_v2 = Outcome ErrorV2 Text
Answer list_tools = List Wit.ToolDefinition
Answer validate_content = Wit.ValidateResult
Answer evaluate = Verdict
Answer list_roles = List Wit.RoleSpec
Answer validate_role = List Wit.Diagnostic
Answer compile_v2 = Outcome (Wit.RoleError ErrorV1) Text
Answer compile_v3 = Outcome (Wit.RoleError ErrorV2) Text
Answer deploy_v1 = Outcome ErrorV1 Wit.DeployJob
Answer deploy_v2 = Outcome ErrorV2 Wit.DeployJob
Answer poll_v1 = Outcome ErrorV1 Wit.DeployJob
Answer poll_v2 = Outcome ErrorV2 Wit.DeployJob
Answer rollback_v1 = Outcome ErrorV1 (Unit {0})
Answer rollback_v2 = Outcome ErrorV2 (Unit {0})
Answer credentials_call = List Wit.Diagnostic
Answer schema_v1 = Outcome ErrorV1 Text
Answer schema_v2 = Outcome ErrorV2 Text
Answer targets_call = List Wit.TargetSummary
Answer fragments_call = List Wit.PromptFragment
Answer entries_call = List Wit.EntrySummary
Answer entry_v1 = Outcome ErrorV1 Wit.Entry
Answer entry_v2 = Outcome ErrorV2 Wit.Entry
Answer suggest_call = List Wit.EntrySummary
Answer render_v1 = Outcome ErrorV1 Wit.BundleArtifact
Answer render_v2 = Outcome ErrorV2 Wit.BundleArtifact
Answer descriptor_call = Text
Answer compose_v1 = Outcome Text Text
Answer compose_v2 = Outcome ErrorV2 Text
Answer report_call = Text
Answer templates_call = Text

-- A store with its instance: the interfaces that it exports, their functions, and `get_typed_func` with
-- `call`, of the interface and the function.
pub record Guest : Type 0 where
  pub exports : Text → Bool
  pub has_func : Text → Text → Bool
  pub call : (sig : Signature) → Text → Text → Args sig → Outcome Text (Answer sig)

abbrev pub design_versions : List Text
design_versions = codes "0.3.0" ∷ codes "0.2.0" ∷ codes "0.1.0" ∷ []

abbrev pub deploy_versions : List Text
deploy_versions = codes "0.2.0" ∷ codes "0.1.0" ∷ []

abbrev pub bundle_versions : List Text
bundle_versions = codes "0.2.0" ∷ codes "0.1.0" ∷ []

abbrev pub guardrail_versions : List Text
guardrail_versions = codes "0.3.0" ∷ []

abbrev pub at_version : Text → Text → Text
at_version base v = base ++ (codes "@" ++ v)

-- The name of the interface and its version.
unfoldable pub resolve_iface_versions :
    Guest → Text → List Text → Outcome RuntimeError (Text × Text)
resolve_iface_versions g base [] = err (wasmtime base)
resolve_iface_versions g base (v ∷ versions) =
    let rest = resolve_iface_versions g base versions in
    if g.exports (at_version base v) then ok (at_version base v, v) else rest

unfoldable pub resolve_func : Guest → Text → Text → Outcome RuntimeError (Unit {0})
resolve_func g iface_name func = if g.has_func iface_name func then ok tt else err (wasmtime func)

unfoldable pub resolve_design_iface : Guest → Text → Outcome RuntimeError Text
unfolding resolve_iface_versions
resolve_design_iface g base = elim (resolve_iface_versions g base design_versions) [
  | err e ↦ err e
  | ok found ↦ ok found.0
]

-- A call's failure, as an error of the runtime.
abbrev pub trapped : {A : Type 0} → Outcome Text A → Outcome RuntimeError A
trapped (ok a) = ok a
trapped (err m) = err (wasmtime m)

-- `map_err` of the error that an extension answers.
unfoldable pub surface :
    {E A : Type 0} → (E → HostExtensionError) → Outcome Text (Outcome E A) → Outcome RuntimeError A
surface f (err m) = err (wasmtime m)
surface f (ok (ok a)) = ok a
surface f (ok (err e)) = err (extension (f e))

-- The same, with `map` of what it answers.
unfoldable pub surface_as :
    {E A B : Type 0}
    → (A → B)
    → (E → HostExtensionError)
    → Outcome Text (Outcome E A)
    → Outcome RuntimeError B
surface_as h f (err m) = err (wasmtime m)
surface_as h f (ok (ok a)) = ok (h a)
surface_as h f (ok (err e)) = err (extension (f e))

abbrev pub default_ctx : HostCallContext
default_ctx = record { tenant = Option.none; user_email = Option.none }

module _ (s : Semver) (c : Contract)
    (build : HostCallContext → LoadedExtension s c → Outcome Text Guest) where
  -- `build` is `build_store_and_instance`.
  unfoldable pub dispatch_instance_ctx :
      ExtensionRuntime s c → Text → HostCallContext → Outcome RuntimeError Guest
  unfolding lookup
  dispatch_instance_ctx r ext_id ctx = elim (lookup s c r ext_id) [
    | err e ↦ err e
    | ok loaded ↦ trapped (build ctx loaded)
  ]

  unfoldable pub dispatch_instance : ExtensionRuntime s c → Text → Outcome RuntimeError Guest
  unfolding dispatch_instance_ctx
  dispatch_instance r ext_id = dispatch_instance_ctx r ext_id default_ctx
