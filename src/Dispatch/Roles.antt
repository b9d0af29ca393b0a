-- ===== src/Dispatch/Roles.antt =====
-- runtime_roles.rs. The messages of the host's own errors are the names that they are about.
use greentic_designer_extens.Base.{
  Option, none, some, List, [], ◌∷◌, map, Text, codes, text_eq, if◌then◌else◌,
}
use mathlib.Core.Option
use greentic_designer_extens.Base.Outcome.{Outcome, ok, err, ◌>>=◌, ◌>>◌}
use greentic_designer_extens.Capability.Contract.{Semver, Contract}
use greentic_designer_extens.Llm.Defs.{HostCallContext}
use greentic_designer_extens.Runtime.Defs.{
  RuntimeError, not_found, LoadedExtension, ExtensionRuntime,
}
use greentic_designer_extens.Types.Wit
use greentic_designer_extens.Types.Defs
use greentic_designer_extens.Types.Defs.{HostExtensionError, RoleError, unknown_role, host}
use greentic_designer_extens.Types.Maps.{
  wit_role_spec_to_host, wit_diagnostic_to_host, wit_role_error_to_host, wit_role_error_to_host_v03,
  target_to_wit,
}
use greentic_designer_extens.Dispatch.Guest.{
  Guest, CompileArgs, list_roles, validate_role, compile_v2, compile_v3, at_version,
  resolve_iface_versions, resolve_func, trapped, dispatch_instance,
}

abbrev pub iface_base : Text
iface_base = codes "greentic:extension-design/roles"

abbrev pub roles_versions : List Text
roles_versions = codes "0.3.0" ∷ codes "0.2.0" ∷ []

-- The loop of `list_roles`: the first version that is exported.
unfoldable pub find_iface : Guest → Text → List Text → Option Text
find_iface g base [] = none
find_iface g base (v ∷ versions) =
    let rest = find_iface g base versions in
    if g.exports (at_version base v) then some (at_version base v) else rest

unfoldable pub roles_in : Guest → Outcome RuntimeError (List Defs.RoleSpec)
unfolding find_iface resolve_func wit_role_spec_to_host
roles_in g = elim (find_iface g iface_base roles_versions) [
  | none ↦ ok []
  | some iface_name ↦ do
    resolve_func g iface_name (codes "list-roles")
    roles ← trapped (g.call list_roles iface_name (codes "list-roles") tt)
    ok (map wit_role_spec_to_host roles)
]

abbrev pub internal : {A : Type 0} → Text → Outcome RoleError A
internal m = err (host (HostExtensionError.internal m))

abbrev pub wit_context : Defs.CompileContext → Wit.CompileContext
wit_context c = record {
  flow_entries_json = c.flow_entries_json;
  flow_id = c.flow_id;
  locale = c.locale;
}

-- The answer of `compile-role`, where a call that fails is internal.
unfoldable pub compiled :
    {E : Type 0} → (E → RoleError) → Outcome Text (Outcome E Text) → Outcome RoleError Text
compiled f (err m) = internal m
compiled f (ok (ok text)) = ok text
compiled f (ok (err e)) = err (f e)

unfoldable pub call_compile :
    Guest
    → Text
    → Text
    → Text
    → Defs.TargetKind
    → Text
    → Option Defs.CompileContext
    → Outcome RoleError Text
unfolding compiled target_to_wit wit_role_error_to_host wit_role_error_to_host_v03
call_compile g iface_name version name target entry_json ctx =
    let args : CompileArgs =
      (name, (target_to_wit target, (entry_json, Option.map wit_context ctx))) in
    if text_eq version (codes "0.3.0")
    then compiled wit_role_error_to_host_v03
        (g.call compile_v3 iface_name (codes "compile-role") args)
    else compiled wit_role_error_to_host (g.call compile_v2 iface_name (codes "compile-role") args)

unfoldable pub compile_in :
    Guest → Text → Defs.TargetKind → Text → Option Defs.CompileContext → Outcome RoleError Text
unfolding resolve_iface_versions resolve_func call_compile
compile_in g name target entry_json ctx =
    elim (resolve_iface_versions g iface_base roles_versions) [
      | err e ↦ internal iface_base
      | ok found ↦ elim (resolve_func g found.0 (codes "compile-role")) [
        | err e ↦ internal (codes "compile-role")
        | ok _ ↦ call_compile g found.0 found.1 name target entry_json ctx
      ]
    ]

-- A missing extension is an unknown role.
unfoldable pub no_instance : Text → RuntimeError → RoleError
no_instance ext_id (not_found id) = unknown_role id
no_instance ext_id _ = host (HostExtensionError.internal ext_id)

module _ (s : Semver) (c : Contract)
    (build : HostCallContext → LoadedExtension s c → Outcome Text Guest) where
  unfoldable pub list_roles_of :
      ExtensionRuntime s c → Text → Outcome RuntimeError (List Defs.RoleSpec)
  unfolding dispatch_instance roles_in
  list_roles_of r ext_id = dispatch_instance s c build r ext_id >>= roles_in

  unfoldable pub validate_role_of :
      ExtensionRuntime s c → Text → Text → Text → Outcome RuntimeError (List Defs.Diagnostic)
  unfolding dispatch_instance resolve_iface_versions resolve_func wit_diagnostic_to_host
  validate_role_of r ext_id name entry_json = do
    g ← dispatch_instance s c build r ext_id
    found ← resolve_iface_versions g iface_base roles_versions
    resolve_func g found.0 (codes "validate-role")
    diags ← trapped (g.call validate_role found.0 (codes "validate-role") (name, entry_json))
    ok (map wit_diagnostic_to_host diags)

  unfoldable pub compile_role :
      ExtensionRuntime s c
      → Text
      → Text
      → Defs.TargetKind
      → Text
      → Option Defs.CompileContext
      → Outcome RoleError Text
  unfolding dispatch_instance no_instance compile_in
  compile_role r ext_id name target entry_json ctx = elim (dispatch_instance s c build r ext_id) [
    | err e ↦ err (no_instance ext_id e)
    | ok g ↦ compile_in g name target entry_json ctx
  ]
