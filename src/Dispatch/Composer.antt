-- ===== src/Dispatch/Composer.antt =====
-- runtime_dw_composer.rs. An error that the composer answers is no error of the call.
use greentic_designer_extens.Base.{[], ◌∷◌, List, Text, codes, text_eq, if◌then◌else◌}
use greentic_designer_extens.Base.Outcome.{Outcome, ok, err, ◌>>=◌, ◌>>◌}
use greentic_designer_extens.Capability.Contract.{Semver, Contract}
use greentic_designer_extens.Llm.Defs.{HostCallContext}
use greentic_designer_extens.Runtime.Defs.{
  RuntimeError, wasmtime, LoadedExtension, ExtensionRuntime,
}
use greentic_designer_extens.Types.Defs.{HostExtensionError}
use greentic_designer_extens.Types.Maps.{from_composer_v01, from_composer_v02}
use greentic_designer_extens.Dispatch.Guest.{
  Guest, descriptor_call, compose_v1, compose_v2, report_call, templates_call,
  resolve_iface_versions, resolve_func, trapped, dispatch_instance,
}

abbrev pub composer_versions : List Text
composer_versions = codes "0.2.0" ∷ codes "0.1.0" ∷ []

abbrev pub composer_iface_base : Text
composer_iface_base = codes "greentic:dw-composer/composer"

unfoldable pub resolve_dw_composer_iface : Guest → Outcome RuntimeError (Text × Text)
unfolding resolve_iface_versions
resolve_dw_composer_iface g = resolve_iface_versions g composer_iface_base composer_versions

-- The composer's own answer, with its error as one of the host.
unfoldable pub composed :
    {E : Type 0}
    → (E → HostExtensionError)
    → Outcome Text (Outcome E Text)
    → Outcome RuntimeError (Outcome HostExtensionError Text)
composed f (err m) = err (wasmtime m)
composed f (ok (ok manifest)) = ok (ok manifest)
composed f (ok (err e)) = ok (err (f e))

unfoldable pub metadata_in : Guest → Outcome RuntimeError Text
unfolding resolve_dw_composer_iface resolve_func
metadata_in g = do
  found ← resolve_dw_composer_iface g
  resolve_func g found.0 (codes "metadata")
  trapped (g.call descriptor_call found.0 (codes "metadata") tt)

-- The call of `compose` at the type of its version.
unfoldable pub call_compose :
    Guest → Text → Text → Text → Outcome RuntimeError (Outcome HostExtensionError Text)
unfolding composed from_composer_v01 from_composer_v02
call_compose g iface_name version intent_json =
    if text_eq version (codes "0.2.0")
    then composed from_composer_v02 (g.call compose_v2 iface_name (codes "compose") intent_json)
    else composed from_composer_v01 (g.call compose_v1 iface_name (codes "compose") intent_json)

unfoldable pub compose_in : Guest → Text → Outcome RuntimeError (Outcome HostExtensionError Text)
unfolding resolve_dw_composer_iface resolve_func call_compose
compose_in g intent_json = do
  found ← resolve_dw_composer_iface g
  resolve_func g found.0 (codes "compose")
  call_compose g found.0 found.1 intent_json

unfoldable pub validate_in : Guest → Text → Outcome RuntimeError Text
unfolding resolve_dw_composer_iface resolve_func
validate_in g manifest_json = do
  found ← resolve_dw_composer_iface g
  resolve_func g found.0 (codes "validate")
  trapped (g.call report_call found.0 (codes "validate") manifest_json)

unfoldable pub templates_in : Guest → Outcome RuntimeError Text
unfolding resolve_dw_composer_iface resolve_func
templates_in g = do
  found ← resolve_dw_composer_iface g
  resolve_func g found.0 (codes "templates")
  trapped (g.call templates_call found.0 (codes "templates") tt)

module _ (s : Semver) (c : Contract)
    (build : HostCallContext → LoadedExtension s c → Outcome Text Guest) where
  unfoldable pub invoke_composer_metadata : ExtensionRuntime s c → Text → Outcome RuntimeError Text
  unfolding dispatch_instance metadata_in
  invoke_composer_metadata r ext_id = dispatch_instance s c build r ext_id >>= metadata_in

  unfoldable pub invoke_composer_compose :
      ExtensionRuntime s c → Text → Text → Outcome RuntimeError (Outcome HostExtensionError Text)
  unfolding dispatch_instance compose_in
  invoke_composer_compose r ext_id intent_json = do
    g ← dispatch_instance s c build r ext_id
    compose_in g intent_json

  unfoldable pub invoke_composer_validate :
      ExtensionRuntime s c → Text → Text → Outcome RuntimeError Text
  unfolding dispatch_instance validate_in
  invoke_composer_validate r ext_id manifest_json = do
    g ← dispatch_instance s c build r ext_id
    validate_in g manifest_json

  unfoldable pub invoke_composer_templates : ExtensionRuntime s c → Text → Outcome RuntimeError Text
  unfolding dispatch_instance templates_in
  invoke_composer_templates r ext_id = dispatch_instance s c build r ext_id >>= templates_in
