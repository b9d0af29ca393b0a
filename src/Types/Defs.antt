-- ===== src/Types/Defs.antt =====
-- types.rs, without the definition of a view (Views.Defs).
use greentic_designer_extens.Base.{ℕ, Bool, Option, List, Text, codes}

-- `S` is the type of another crate that a requirement for a secret has.
pub record ToolDefinition (S : Type 0) : Type 0 where
  pub name : Text
  pub description : Text
  pub input_schema_json : Text
  pub output_schema_json : Option Text
  pub capabilities : Option (List Text)
  pub agentic_worker_metadata : Option Text
  pub secret_requirements : List S

pub data Severity : Type 0 where
  error warning info hint : Severity

pub record Diagnostic : Type 0 where
  pub severity : Severity
  pub code : Text
  pub message : Text
  pub path : Option Text

pub record ValidateResult : Type 0 where
  pub valid : Bool
  pub diagnostics : List Diagnostic

pub record DeployRequest : Type 0 where
  pub target_id : Text
  pub artifact_bytes : Text
  pub credentials_json : Text
  pub config_json : Text
  pub deployment_name : Text

pub data DeployStatus : Type 0 where
  pending provisioning configuring starting running failed rolled_back : DeployStatus

pub record DeployJob : Type 0 where
  pub id : Text
  pub status : DeployStatus
  pub message : Text
  pub endpoints : List Text

pub data DeployExtensionError : Type 0 where
  invalid_input missing_capability permission_denied not_found schema_invalid internal :
      (message : Text) → DeployExtensionError

pub data TargetKind : Type 0 where
  adaptive_card slack_block_kit teams_card plain_text : TargetKind

pub record RoleSpec : Type 0 where
  pub name : Text
  pub description : Text
  pub json_schema : Text
  pub target : TargetKind
  pub schema_version : ℕ
  pub context_aware : Bool

pub record CompileContext : Type 0 where
  pub flow_entries_json : Text
  pub flow_id : Option Text
  pub locale : Text

pub data HostExtensionError : Type 0 where
  invalid_input missing_capability permission_denied not_found schema_invalid internal :
      (message : Text) → HostExtensionError

unfoldable pub code : HostExtensionError → Text
code (HostExtensionError.invalid_input m) = codes "invalid-input"
code (HostExtensionError.missing_capability m) = codes "missing-capability"
code (HostExtensionError.permission_denied m) = codes "permission-denied"
code (HostExtensionError.not_found m) = codes "not-found"
code (HostExtensionError.schema_invalid m) = codes "schema-invalid"
code (HostExtensionError.internal m) = codes "internal"

pub data RoleError : Type 0 where
  unknown_role : (name : Text) → RoleError
  invalid_input : (diagnostics : List Diagnostic) → RoleError
  compile_failed : (message : Text) → RoleError
  target_not_supported : (target : TargetKind) → RoleError
  version_not_supported : (version : ℕ) → RoleError
  host : (e : HostExtensionError) → RoleError

pub record PromptFragment : Type 0 where
  pub section : Text
  pub content_markdown : Text
  pub priority : ℕ

pub record KnowledgeEntrySummary : Type 0 where
  pub id : Text
  pub title : Text
  pub category : Text
  pub tags : List Text

pub record KnowledgeEntry : Type 0 where
  pub id : Text
  pub title : Text
  pub category : Text
  pub tags : List Text
  pub content_json : Text

pub record TargetSummary : Type 0 where
  pub id : Text
  pub display_name : Text
  pub description : Text
  pub icon_path : Option Text
  pub supports_rollback : Bool

pub record BundleSession : Type 0 where
  pub flows_json : Text
  pub contents_json : Text
  pub assets : List (Text × Text)
  pub capabilities_used : List Text

pub record BundleArtifact : Type 0 where
  pub filename : Text
  pub bytes : Text
  pub sha256 : Text
