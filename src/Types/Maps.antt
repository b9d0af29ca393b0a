-- ===== src/Types/Maps.antt =====
-- ext_error.rs, and the maps of runtime_roles.rs, runtime_deploy.rs and runtime_design.rs between the
-- types of the bindings and those of the host.
use greentic_designer_extens.Base.{Text, map}
use greentic_designer_extens.Types.Wit
use greentic_designer_extens.Types.Wit.{ErrorV1, ErrorV2}
use greentic_designer_extens.Types.Defs
use greentic_designer_extens.Types.Defs.{HostExtensionError, DeployExtensionError}

unfoldable pub from_design_v01 : ErrorV1 → HostExtensionError
from_design_v01 (ErrorV1.invalid_input m) = HostExtensionError.invalid_input m
from_design_v01 (ErrorV1.missing_capability m) = HostExtensionError.missing_capability m
from_design_v01 (ErrorV1.permission_denied m) = HostExtensionError.permission_denied m
from_design_v01 (ErrorV1.internal m) = HostExtensionError.internal m

unfoldable pub from_deploy_v01 : ErrorV1 → HostExtensionError
from_deploy_v01 (ErrorV1.invalid_input m) = HostExtensionError.invalid_input m
from_deploy_v01 (ErrorV1.missing_capability m) = HostExtensionError.missing_capability m
from_deploy_v01 (ErrorV1.permission_denied m) = HostExtensionError.permission_denied m
from_deploy_v01 (ErrorV1.internal m) = HostExtensionError.internal m

unfoldable pub from_bundle_v01 : ErrorV1 → HostExtensionError
from_bundle_v01 (ErrorV1.invalid_input m) = HostExtensionError.invalid_input m
from_bundle_v01 (ErrorV1.missing_capability m) = HostExtensionError.missing_capability m
from_bundle_v01 (ErrorV1.permission_denied m) = HostExtensionError.permission_denied m
from_bundle_v01 (ErrorV1.internal m) = HostExtensionError.internal m

unfoldable pub from_design_v03 : ErrorV2 → HostExtensionError
from_design_v03 (ErrorV2.invalid_input m) = HostExtensionError.invalid_input m
from_design_v03 (ErrorV2.missing_capability m) = HostExtensionError.missing_capability m
from_design_v03 (ErrorV2.permission_denied m) = HostExtensionError.permission_denied m
from_design_v03 (ErrorV2.not_found m) = HostExtensionError.not_found m
from_design_v03 (ErrorV2.schema_invalid m) = HostExtensionError.schema_invalid m
from_design_v03 (ErrorV2.internal m) = HostExtensionError.internal m

unfoldable pub from_deploy_v02 : ErrorV2 → HostExtensionError
from_deploy_v02 (ErrorV2.invalid_input m) = HostExtensionError.invalid_input m
from_deploy_v02 (ErrorV2.missing_capability m) = HostExtensionError.missing_capability m
from_deploy_v02 (ErrorV2.permission_denied m) = HostExtensionError.permission_denied m
from_deploy_v02 (ErrorV2.not_found m) = HostExtensionError.not_found m
from_deploy_v02 (ErrorV2.schema_invalid m) = HostExtensionError.schema_invalid m
from_deploy_v02 (ErrorV2.internal m) = HostExtensionError.internal m

unfoldable pub from_bundle_v02 : ErrorV2 → HostExtensionError
from_bundle_v02 (ErrorV2.invalid_input m) = HostExtensionError.invalid_input m
from_bundle_v02 (ErrorV2.missing_capability m) = HostExtensionError.missing_capability m
from_bundle_v02 (ErrorV2.permission_denied m) = HostExtensionError.permission_denied m
from_bundle_v02 (ErrorV2.not_found m) = HostExtensionError.not_found m
from_bundle_v02 (ErrorV2.schema_invalid m) = HostExtensionError.schema_invalid m
from_bundle_v02 (ErrorV2.internal m) = HostExtensionError.internal m

unfoldable pub from_composer_v02 : ErrorV2 → HostExtensionError
from_composer_v02 (ErrorV2.invalid_input m) = HostExtensionError.invalid_input m
from_composer_v02 (ErrorV2.missing_capability m) = HostExtensionError.missing_capability m
from_composer_v02 (ErrorV2.permission_denied m) = HostExtensionError.permission_denied m
from_composer_v02 (ErrorV2.not_found m) = HostExtensionError.not_found m
from_composer_v02 (ErrorV2.schema_invalid m) = HostExtensionError.schema_invalid m
from_composer_v02 (ErrorV2.internal m) = HostExtensionError.internal m

unfoldable pub from_composer_v01 : Text → HostExtensionError
from_composer_v01 message = HostExtensionError.internal message

-- runtime_roles.rs
unfoldable pub wit_extension_error_to_host : ErrorV1 → HostExtensionError
wit_extension_error_to_host (ErrorV1.invalid_input m) = HostExtensionError.invalid_input m
wit_extension_error_to_host (ErrorV1.missing_capability m) = HostExtensionError.missing_capability m
wit_extension_error_to_host (ErrorV1.permission_denied m) = HostExtensionError.permission_denied m
wit_extension_error_to_host (ErrorV1.internal m) = HostExtensionError.internal m

unfoldable pub wit_extension_error_to_host_v03 : ErrorV2 → HostExtensionError
wit_extension_error_to_host_v03 (ErrorV2.invalid_input m) = HostExtensionError.invalid_input m
wit_extension_error_to_host_v03 (ErrorV2.missing_capability m) =
    HostExtensionError.missing_capability m
wit_extension_error_to_host_v03 (ErrorV2.permission_denied m) =
    HostExtensionError.permission_denied m
wit_extension_error_to_host_v03 (ErrorV2.not_found m) = HostExtensionError.not_found m
wit_extension_error_to_host_v03 (ErrorV2.schema_invalid m) = HostExtensionError.schema_invalid m
wit_extension_error_to_host_v03 (ErrorV2.internal m) = HostExtensionError.internal m

-- runtime_deploy.rs
unfoldable pub err_to_host : ErrorV1 → DeployExtensionError
err_to_host (ErrorV1.invalid_input m) = DeployExtensionError.invalid_input m
err_to_host (ErrorV1.missing_capability m) = DeployExtensionError.missing_capability m
err_to_host (ErrorV1.permission_denied m) = DeployExtensionError.permission_denied m
err_to_host (ErrorV1.internal m) = DeployExtensionError.internal m

unfoldable pub err_to_host_v2 : ErrorV2 → DeployExtensionError
err_to_host_v2 (ErrorV2.invalid_input m) = DeployExtensionError.invalid_input m
err_to_host_v2 (ErrorV2.missing_capability m) = DeployExtensionError.missing_capability m
err_to_host_v2 (ErrorV2.permission_denied m) = DeployExtensionError.permission_denied m
err_to_host_v2 (ErrorV2.not_found m) = DeployExtensionError.not_found m
err_to_host_v2 (ErrorV2.schema_invalid m) = DeployExtensionError.schema_invalid m
err_to_host_v2 (ErrorV2.internal m) = DeployExtensionError.internal m

unfoldable pub severity_from_wit : Wit.Severity → Defs.Severity
severity_from_wit Wit.Severity.error = Defs.Severity.error
severity_from_wit Wit.Severity.warning = Defs.Severity.warning
severity_from_wit Wit.Severity.info = Defs.Severity.info
severity_from_wit Wit.Severity.hint = Defs.Severity.hint

unfoldable pub target_to_wit : Defs.TargetKind → Wit.TargetKind
target_to_wit Defs.TargetKind.adaptive_card = Wit.TargetKind.adaptive_card
target_to_wit Defs.TargetKind.slack_block_kit = Wit.TargetKind.slack_block_kit
target_to_wit Defs.TargetKind.teams_card = Wit.TargetKind.teams_card
target_to_wit Defs.TargetKind.plain_text = Wit.TargetKind.plain_text

unfoldable pub target_from_wit : Wit.TargetKind → Defs.TargetKind
target_from_wit Wit.TargetKind.adaptive_card = Defs.TargetKind.adaptive_card
target_from_wit Wit.TargetKind.slack_block_kit = Defs.TargetKind.slack_block_kit
target_from_wit Wit.TargetKind.teams_card = Defs.TargetKind.teams_card
target_from_wit Wit.TargetKind.plain_text = Defs.TargetKind.plain_text

unfoldable pub status_to_host : Wit.DeployStatus → Defs.DeployStatus
status_to_host Wit.DeployStatus.pending = Defs.DeployStatus.pending
status_to_host Wit.DeployStatus.provisioning = Defs.DeployStatus.provisioning
status_to_host Wit.DeployStatus.configuring = Defs.DeployStatus.configuring
status_to_host Wit.DeployStatus.starting = Defs.DeployStatus.starting
status_to_host Wit.DeployStatus.running = Defs.DeployStatus.running
status_to_host Wit.DeployStatus.failed = Defs.DeployStatus.failed
status_to_host Wit.DeployStatus.rolled_back = Defs.DeployStatus.rolled_back

unfoldable pub job_to_host : Wit.DeployJob → Defs.DeployJob
unfolding status_to_host
job_to_host j = record {
  id = j.id;
  status = status_to_host j.status;
  message = j.message;
  endpoints = j.endpoints;
}

unfoldable pub wit_diagnostic_to_host : Wit.Diagnostic → Defs.Diagnostic
unfolding severity_from_wit
wit_diagnostic_to_host d = record {
  severity = severity_from_wit d.severity;
  code = d.code;
  message = d.message;
  path = d.path;
}

unfoldable pub wit_role_spec_to_host : Wit.RoleSpec → Defs.RoleSpec
unfolding target_from_wit
wit_role_spec_to_host s = record {
  name = s.name;
  description = s.description;
  json_schema = s.json_schema;
  target = target_from_wit s.target;
  schema_version = s.schema_version;
  context_aware = s.context_aware;
}

-- `wit_role_error_to_host` and `wit_role_error_to_host_v03`, by the map of their extension errors.
unfoldable pub role_error_with :
    {E : Type 0} → (E → HostExtensionError) → Wit.RoleError E → Defs.RoleError
unfolding wit_diagnostic_to_host target_from_wit
role_error_with f (Wit.RoleError.unknown_role n) = Defs.RoleError.unknown_role n
role_error_with f (Wit.RoleError.invalid_input ds) =
    Defs.RoleError.invalid_input (map wit_diagnostic_to_host ds)
role_error_with f (Wit.RoleError.compile_failed m) = Defs.RoleError.compile_failed m
role_error_with f (Wit.RoleError.target_not_supported t) =
    Defs.RoleError.target_not_supported (target_from_wit t)
role_error_with f (Wit.RoleError.version_not_supported v) = Defs.RoleError.version_not_supported v
role_error_with f (Wit.RoleError.host e) = Defs.RoleError.host (f e)

unfoldable pub wit_role_error_to_host : Wit.RoleError ErrorV1 → Defs.RoleError
unfolding role_error_with wit_extension_error_to_host
wit_role_error_to_host e = role_error_with wit_extension_error_to_host e

unfoldable pub wit_role_error_to_host_v03 : Wit.RoleError ErrorV2 → Defs.RoleError
unfolding role_error_with wit_extension_error_to_host_v03
wit_role_error_to_host_v03 e = role_error_with wit_extension_error_to_host_v03 e
