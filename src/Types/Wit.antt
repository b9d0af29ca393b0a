-- ===== src/Types/Wit.antt =====
-- The types of the WIT packages, as the bindings have them. The two versions of the base package
-- differ in their errors; a type that the versions share is declared once.
use greentic_designer_extens.Base.{ℕ, Bool, Option, List, Text}

-- The error of base 0.1.0, and of base 0.2.0.
pub data ErrorV1 : Type 0 where
  invalid_input missing_capability permission_denied internal : (message : Text) → ErrorV1

pub data ErrorV2 : Type 0 where
  invalid_input missing_capability permission_denied not_found schema_invalid internal :
      (message : Text) → ErrorV2

pub data Severity : Type 0 where
  error warning info hint : Severity

pub record Diagnostic : Type 0 where
  pub severity : Severity
  pub code : Text
  pub message : Text
  pub path : Option Text

pub record ValidateResult : Type 0 where
  pub valid : Bool
  pub diagnostics : List Diagnostic

pub record ToolDefinition : Type 0 where
  pub name : Text
  pub description : Text
  pub input_schema_json : Text
  pub output_schema_json : Option Text
  pub capabilities : Option (List Text)
  pub agentic_worker_metadata : Option Text

pub data TargetKind : Type 0 where
  adaptive_card slack_block_kit teams_card plain_text : TargetKind

pub record RoleSpec : Type 0 where
  pub name : Text
  pub description : Text
  pub json_schema : Text
  pub target : TargetKind
  pub schema_version : ℕ
  pub context_aware : Bool

pub record CompileContext : Type 0 where
  pub flow_entries_json : Text
  pub flow_id : Option Text
  pub locale : Text

-- The error of a role, over the extension errors of its version.
pub data RoleError (E : Type 0) : Type 0 where
  unknown_role : (name : Text) → RoleError E
  invalid_input : (diagnostics : List Diagnostic) → RoleError E
  compile_failed : (message : Text) → RoleError E
  target_not_supported : (target : TargetKind) → RoleError E
  version_not_supported : (version : ℕ) → RoleError E
  host : (e : E) → RoleError E

pub data DeployStatus : Type 0 where
  pending provisioning configuring starting running failed rolled_back : DeployStatus

pub record DeployJob : Type 0 where
  pub id : Text
  pub status : DeployStatus
  pub message : Text
  pub endpoints : List Text

pub record DeployRequest : Type 0 where
  pub target_id : Text
  pub artifact_bytes : Text
  pub credentials_json : Text
  pub config_json : Text
  pub deployment_name : Text

pub record PromptFragment : Type 0 where
  pub section : Text
  pub content_markdown : Text
  pub priority : ℕ

pub record EntrySummary : Type 0 where
  pub id : Text
  pub title : Text
  pub category : Text
  pub tags : List Text

pub record Entry : Type 0 where
  pub id : Text
  pub title : Text
  pub category : Text
  pub tags : List Text
  pub content_json : Text

pub record TargetSummary : Type 0 where
  pub id : Text
  pub display_name : Text
  pub description : Text
  pub icon_path : Option Text
  pub supports_rollback : Bool

pub record DesignerSession : Type 0 where
  pub flows_json : Text
  pub contents_json : Text
  pub assets : List (Text × Text)
  pub capabilities_used : List Text

pub record BundleArtifact : Type 0 where
  pub filename : Text
  pub bytes : Text
  pub sha256 : Text
