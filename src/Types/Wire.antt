-- ===== src/Types/Wire.antt =====
-- What the maps of errors keep.
use greentic_designer_extens.Base.{◌≡◌, refl, List, [], ◌∷◌, map, Text, codes}
use greentic_designer_extens.Types.Wit
use greentic_designer_extens.Types.Wit.{ErrorV1, ErrorV2}
use greentic_designer_extens.Types.Defs.{HostExtensionError, code}
use greentic_designer_extens.Types.Maps.{
  from_design_v01, from_deploy_v01, from_bundle_v01, from_design_v03, from_deploy_v02,
  from_bundle_v02, from_composer_v02, from_composer_v01, wit_extension_error_to_host,
  wit_extension_error_to_host_v03, err_to_host, err_to_host_v2, severity_from_wit, target_from_wit,
  wit_diagnostic_to_host, role_error_with, wit_role_error_to_host, wit_role_error_to_host_v03,
}
use greentic_designer_extens.Types.Names.{
  wire, variant_v1, variant_v2, deploy_variant, severity_of_wit, severity_of_host, target_of_wit,
  target_of_host, shown_of_wit, shown_of_host, role_of_wit, role_of_host,
}

-- Every map of an extension's error keeps the name of the variant and its message.
pub record KeptV1 (e : ErrorV1) : Type 0 where
  pub design : wire (from_design_v01 e) ≡ variant_v1 e
  pub deploy : wire (from_deploy_v01 e) ≡ variant_v1 e
  pub bundle : wire (from_bundle_v01 e) ≡ variant_v1 e
  pub role : wire (wit_extension_error_to_host e) ≡ variant_v1 e
  pub deployment : deploy_variant (err_to_host e) ≡ variant_v1 e

pub record KeptV2 (e : ErrorV2) : Type 0 where
  pub design : wire (from_design_v03 e) ≡ variant_v2 e
  pub deploy : wire (from_deploy_v02 e) ≡ variant_v2 e
  pub bundle : wire (from_bundle_v02 e) ≡ variant_v2 e
  pub composer : wire (from_composer_v02 e) ≡ variant_v2 e
  pub role : wire (wit_extension_error_to_host_v03 e) ≡ variant_v2 e
  pub deployment : deploy_variant (err_to_host_v2 e) ≡ variant_v2 e

pub v1_kept : (e : ErrorV1) → KeptV1 e
unfolding code from_design_v01 from_deploy_v01 from_bundle_v01 wit_extension_error_to_host
    err_to_host
v1_kept (ErrorV1.invalid_input m) = record {
  design = refl;
  deploy = refl;
  bundle = refl;
  role = refl;
  deployment = refl;
}
v1_kept (ErrorV1.missing_capability m) = record {
  design = refl;
  deploy = refl;
  bundle = refl;
  role = refl;
  deployment = refl;
}
v1_kept (ErrorV1.permission_denied m) = record {
  design = refl;
  deploy = refl;
  bundle = refl;
  role = refl;
  deployment = refl;
}
v1_kept (ErrorV1.internal m) = record {
  design = refl;
  deploy = refl;
  bundle = refl;
  role = refl;
  deployment = refl;
}

pub v2_kept : (e : ErrorV2) → KeptV2 e
unfolding code from_design_v03 from_deploy_v02 from_bundle_v02 from_composer_v02
    wit_extension_error_to_host_v03 err_to_host_v2
v2_kept (ErrorV2.invalid_input m) = record {
  design = refl;
  deploy = refl;
  bundle = refl;
  composer = refl;
  role = refl;
  deployment = refl;
}
v2_kept (ErrorV2.missing_capability m) = record {
  design = refl;
  deploy = refl;
  bundle = refl;
  composer = refl;
  role = refl;
  deployment = refl;
}
v2_kept (ErrorV2.permission_denied m) = record {
  design = refl;
  deploy = refl;
  bundle = refl;
  composer = refl;
  role = refl;
  deployment = refl;
}
v2_kept (ErrorV2.not_found m) = record {
  design = refl;
  deploy = refl;
  bundle = refl;
  composer = refl;
  role = refl;
  deployment = refl;
}
v2_kept (ErrorV2.schema_invalid m) = record {
  design = refl;
  deploy = refl;
  bundle = refl;
  composer = refl;
  role = refl;
  deployment = refl;
}
v2_kept (ErrorV2.internal m) = record {
  design = refl;
  deploy = refl;
  bundle = refl;
  composer = refl;
  role = refl;
  deployment = refl;
}

severity_kept : (v : Wit.Severity) → severity_of_host (severity_from_wit v) ≡ severity_of_wit v
unfolding severity_from_wit
severity_kept Wit.Severity.error = refl
severity_kept Wit.Severity.warning = refl
severity_kept Wit.Severity.info = refl
severity_kept Wit.Severity.hint = refl

diagnostic_kept : (d : Wit.Diagnostic) → shown_of_host (wit_diagnostic_to_host d) ≡ shown_of_wit d
unfolding wit_diagnostic_to_host
diagnostic_kept d = rw (severity_kept d.severity) refl

diagnostics_kept :
    (ds : List Wit.Diagnostic)
    → map shown_of_host (map wit_diagnostic_to_host ds) ≡ map shown_of_wit ds
diagnostics_kept [] = refl
diagnostics_kept (d ∷ ds) = rw (diagnostic_kept d, diagnostics_kept ds) refl

target_kept : (t : Wit.TargetKind) → target_of_host (target_from_wit t) ≡ target_of_wit t
unfolding target_from_wit
target_kept Wit.TargetKind.adaptive_card = refl
target_kept Wit.TargetKind.slack_block_kit = refl
target_kept Wit.TargetKind.teams_card = refl
target_kept Wit.TargetKind.plain_text = refl

role_kept :
    {E : Type 0} (f : E → HostExtensionError) (variant : E → Text × Text)
    → ((e : E) → wire (f e) ≡ variant e)
    → (e : Wit.RoleError E) → role_of_host (role_error_with f e) ≡ role_of_wit variant e
unfolding role_error_with
role_kept f variant h (Wit.RoleError.unknown_role n) = refl
role_kept f variant h (Wit.RoleError.invalid_input ds) = rw (diagnostics_kept ds) refl
role_kept f variant h (Wit.RoleError.compile_failed m) = refl
role_kept f variant h (Wit.RoleError.target_not_supported t) = rw (target_kept t) refl
role_kept f variant h (Wit.RoleError.version_not_supported v) = refl
role_kept f variant h (Wit.RoleError.host e) = rw (h e) refl

-- Every map from an error of the interfaces to one of the host keeps the name of the variant and what it
-- carries: the errors of an extension of both versions, by each of their maps, the text of the old
-- composer as an internal error, and the errors of a role with their diagnostics.
pub wire_lem :
    (v1 : ErrorV1) (v2 : ErrorV2) (message : Text) (r1 : Wit.RoleError ErrorV1)
    (r2 : Wit.RoleError ErrorV2)
    → KeptV1 v1
      × KeptV2 v2
      × (wire (from_composer_v01 message) ≡ (codes "internal", message))
      × (role_of_host (wit_role_error_to_host r1) ≡ role_of_wit variant_v1 r1)
      × (role_of_host (wit_role_error_to_host_v03 r2) ≡ role_of_wit variant_v2 r2)
unfolding wit_role_error_to_host wit_role_error_to_host_v03 from_composer_v01 code
wire_lem v1 v2 message r1 r2 = (
  v1_kept v1,
  v2_kept v2,
  refl,
  role_kept wit_extension_error_to_host variant_v1 (λ e. (v1_kept e).role) r1,
  role_kept wit_extension_error_to_host_v03 variant_v2 (λ e. (v2_kept e).role) r2,
)
