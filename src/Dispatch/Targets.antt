-- ===== src/Dispatch/Targets.antt =====
-- runtime_targets.rs.
use greentic_designer_extens.Base.{List, map, Text, codes, text_eq, if◌then◌else◌}
use greentic_designer_extens.Base.Outcome.{Outcome, ok, ◌>>=◌, ◌>>◌}
use greentic_designer_extens.Capability.Contract.{Semver, Contract}
use greentic_designer_extens.Llm.Defs.{HostCallContext}
use greentic_designer_extens.Runtime.Defs.{RuntimeError, LoadedExtension, ExtensionRuntime}
use greentic_designer_extens.Types.Wit
use greentic_designer_extens.Types.Defs as Host
use greentic_designer_extens.Types.Maps.{from_deploy_v01, from_deploy_v02}
use greentic_designer_extens.Dispatch.Guest.{
  Guest, credentials_call, schema_v1, schema_v2, targets_call, deploy_versions,
  resolve_iface_versions, resolve_func, trapped, surface, dispatch_instance,
}

abbrev pub targets_iface : Text
targets_iface = codes "greentic:extension-deploy/targets"

unfoldable pub severity_from_wit : Wit.Severity → Host.Severity
severity_from_wit Wit.Severity.error = Host.Severity.error
severity_from_wit Wit.Severity.warning = Host.Severity.warning
severity_from_wit Wit.Severity.info = Host.Severity.info
severity_from_wit Wit.Severity.hint = Host.Severity.hint

unfoldable pub diagnostic_of_wit : Wit.Diagnostic → Host.Diagnostic
unfolding severity_from_wit
diagnostic_of_wit d = record {
  severity = severity_from_wit d.severity;
  code = d.code;
  message = d.message;
  path = d.path;
}

unfoldable pub target_of_wit : Wit.TargetSummary → Host.TargetSummary
target_of_wit t = record {
  id = t.id;
  display_name = t.display_name;
  description = t.description;
  icon_path = t.icon_path;
  supports_rollback = t.supports_rollback;
}

unfoldable pub validate_credentials_in :
    Guest → Text → Text → Outcome RuntimeError (List Host.Diagnostic)
unfolding resolve_iface_versions resolve_func diagnostic_of_wit
validate_credentials_in g target_id credentials_json = do
  found ← resolve_iface_versions g targets_iface deploy_versions
  resolve_func g found.0 (codes "validate-credentials")
  result ←
      trapped (
        g.call credentials_call found.0 (codes "validate-credentials")
          (target_id, credentials_json))
  ok (map diagnostic_of_wit result)

-- The call of `credential-schema` at the type of its version.
unfoldable pub call_schema : Guest → Text → Text → Text → Outcome RuntimeError Text
unfolding surface from_deploy_v01 from_deploy_v02
call_schema g iface_name version target_id =
    if text_eq version (codes "0.2.0")
    then surface from_deploy_v02 (g.call schema_v2 iface_name (codes "credential-schema") target_id)
    else surface from_deploy_v01 (g.call schema_v1 iface_name (codes "credential-schema") target_id)

unfoldable pub credential_schema_in : Guest → Text → Outcome RuntimeError Text
unfolding resolve_iface_versions resolve_func call_schema
credential_schema_in g target_id = do
  found ← resolve_iface_versions g targets_iface deploy_versions
  resolve_func g found.0 (codes "credential-schema")
  call_schema g found.0 found.1 target_id

unfoldable pub list_targets_in : Guest → Outcome RuntimeError (List Host.TargetSummary)
unfolding resolve_iface_versions resolve_func target_of_wit
list_targets_in g = do
  found ← resolve_iface_versions g targets_iface deploy_versions
  resolve_func g found.0 (codes "list-targets")
  result ← trapped (g.call targets_call found.0 (codes "list-targets") tt)
  ok (map target_of_wit result)

module _ (s : Semver) (c : Contract)
    (build : HostCallContext → LoadedExtension s c → Outcome Text Guest) where
  unfoldable pub validate_credentials :
      ExtensionRuntime s c → Text → Text → Text → Outcome RuntimeError (List Host.Diagnostic)
  unfolding dispatch_instance validate_credentials_in
  validate_credentials r ext_id target_id credentials_json = do
    g ← dispatch_instance s c build r ext_id
    validate_credentials_in g target_id credentials_json

  unfoldable pub credential_schema : ExtensionRuntime s c → Text → Text → Outcome RuntimeError Text
  unfolding dispatch_instance credential_schema_in
  credential_schema r ext_id target_id = do
    g ← dispatch_instance s c build r ext_id
    credential_schema_in g target_id

  unfoldable pub list_targets :
      ExtensionRuntime s c → Text → Outcome RuntimeError (List Host.TargetSummary)
  unfolding dispatch_instance list_targets_in
  list_targets r ext_id = dispatch_instance s c build r ext_id >>= list_targets_in
