-- ===== src/Types/Names.antt =====
-- The errors of each side of the maps, by the names of their variants.
use greentic_designer_extens.Base.{ℕ, Option, List, [], map, Text, codes}
use greentic_designer_extens.Types.Wit
use greentic_designer_extens.Types.Wit.{ErrorV1, ErrorV2}
use greentic_designer_extens.Types.Defs
use greentic_designer_extens.Types.Defs.{HostExtensionError, DeployExtensionError, code}

abbrev pub message_of : HostExtensionError → Text
message_of (HostExtensionError.invalid_input m) = m
message_of (HostExtensionError.missing_capability m) = m
message_of (HostExtensionError.permission_denied m) = m
message_of (HostExtensionError.not_found m) = m
message_of (HostExtensionError.schema_invalid m) = m
message_of (HostExtensionError.internal m) = m

-- An error of the host on the wire: its code, and its message.
abbrev pub wire : HostExtensionError → Text × Text
wire e = (code e, message_of e)

-- The names that the WIT packages give the variants, with the payload of each.
abbrev pub variant_v1 : ErrorV1 → Text × Text
variant_v1 (ErrorV1.invalid_input m) = (codes "invalid-input", m)
variant_v1 (ErrorV1.missing_capability m) = (codes "missing-capability", m)
variant_v1 (ErrorV1.permission_denied m) = (codes "permission-denied", m)
variant_v1 (ErrorV1.internal m) = (codes "internal", m)

abbrev pub variant_v2 : ErrorV2 → Text × Text
variant_v2 (ErrorV2.invalid_input m) = (codes "invalid-input", m)
variant_v2 (ErrorV2.missing_capability m) = (codes "missing-capability", m)
variant_v2 (ErrorV2.permission_denied m) = (codes "permission-denied", m)
variant_v2 (ErrorV2.not_found m) = (codes "not-found", m)
variant_v2 (ErrorV2.schema_invalid m) = (codes "schema-invalid", m)
variant_v2 (ErrorV2.internal m) = (codes "internal", m)

-- The error of a deployment, by the name of its variant.
abbrev pub deploy_variant : DeployExtensionError → Text × Text
deploy_variant (DeployExtensionError.invalid_input m) = (codes "invalid-input", m)
deploy_variant (DeployExtensionError.missing_capability m) = (codes "missing-capability", m)
deploy_variant (DeployExtensionError.permission_denied m) = (codes "permission-denied", m)
deploy_variant (DeployExtensionError.not_found m) = (codes "not-found", m)
deploy_variant (DeployExtensionError.schema_invalid m) = (codes "schema-invalid", m)
deploy_variant (DeployExtensionError.internal m) = (codes "internal", m)

-- A diagnostic by the name of its severity.
pub record DiagnosticShown : Type 0 where
  pub severity : Text
  pub code : Text
  pub message : Text
  pub path : Option Text

abbrev pub severity_of_wit : Wit.Severity → Text
severity_of_wit Wit.Severity.error = codes "error"
severity_of_wit Wit.Severity.warning = codes "warning"
severity_of_wit Wit.Severity.info = codes "info"
severity_of_wit Wit.Severity.hint = codes "hint"

abbrev pub severity_of_host : Defs.Severity → Text
severity_of_host Defs.Severity.error = codes "error"
severity_of_host Defs.Severity.warning = codes "warning"
severity_of_host Defs.Severity.info = codes "info"
severity_of_host Defs.Severity.hint = codes "hint"

abbrev pub target_of_wit : Wit.TargetKind → Text
target_of_wit Wit.TargetKind.adaptive_card = codes "adaptive-card"
target_of_wit Wit.TargetKind.slack_block_kit = codes "slack-block-kit"
target_of_wit Wit.TargetKind.teams_card = codes "teams-card"
target_of_wit Wit.TargetKind.plain_text = codes "plain-text"

abbrev pub target_of_host : Defs.TargetKind → Text
target_of_host Defs.TargetKind.adaptive_card = codes "adaptive-card"
target_of_host Defs.TargetKind.slack_block_kit = codes "slack-block-kit"
target_of_host Defs.TargetKind.teams_card = codes "teams-card"
target_of_host Defs.TargetKind.plain_text = codes "plain-text"

abbrev pub shown_of_wit : Wit.Diagnostic → DiagnosticShown
shown_of_wit d = record {
  severity = severity_of_wit d.severity;
  code = d.code;
  message = d.message;
  path = d.path;
}

abbrev pub shown_of_host : Defs.Diagnostic → DiagnosticShown
shown_of_host d = record {
  severity = severity_of_host d.severity;
  code = d.code;
  message = d.message;
  path = d.path;
}

-- The error of a role by the name of its variant, with what it carries.
pub record RoleShown : Type 0 where
  pub variant : Text
  pub carried : Text × Text
  pub diagnostics : List DiagnosticShown
  pub version : ℕ

abbrev pub role_shown : Text → Text × Text → RoleShown
role_shown variant carried = record {
  variant = variant;
  carried = carried;
  diagnostics = [];
  version = 0;
}

abbrev pub role_of_wit : {E : Type 0} → (E → Text × Text) → Wit.RoleError E → RoleShown
role_of_wit variant (Wit.RoleError.unknown_role n) = role_shown (codes "unknown-role") (n, [])
role_of_wit variant (Wit.RoleError.invalid_input ds) =
    record (role_shown (codes "invalid-input") ([], [])) { diagnostics = map shown_of_wit ds }
role_of_wit variant (Wit.RoleError.compile_failed m) = role_shown (codes "compile-failed") (m, [])
role_of_wit variant (Wit.RoleError.target_not_supported t) =
    role_shown (codes "target-not-supported") (target_of_wit t, [])
role_of_wit variant (Wit.RoleError.version_not_supported v) =
    record (role_shown (codes "version-not-supported") ([], [])) { version = v }
role_of_wit variant (Wit.RoleError.host e) = role_shown (codes "host") (variant e)

abbrev pub role_of_host : Defs.RoleError → RoleShown
role_of_host (Defs.RoleError.unknown_role n) = role_shown (codes "unknown-role") (n, [])
role_of_host (Defs.RoleError.invalid_input ds) =
    record (role_shown (codes "invalid-input") ([], [])) { diagnostics = map shown_of_host ds }
role_of_host (Defs.RoleError.compile_failed m) = role_shown (codes "compile-failed") (m, [])
role_of_host (Defs.RoleError.target_not_supported t) =
    role_shown (codes "target-not-supported") (target_of_host t, [])
role_of_host (Defs.RoleError.version_not_supported v) =
    record (role_shown (codes "version-not-supported") ([], [])) { version = v }
role_of_host (Defs.RoleError.host e) = role_shown (codes "host") (wire e)
