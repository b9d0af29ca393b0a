-- ===== src/Dispatch/Design.antt =====
-- runtime_design.rs. The fields of a description are read by parameters.
use greentic_designer_extens.Base.{
  Option, none, some, List, [], map, Text, codes, text_eq, if◌then◌else◌,
}
use greentic_designer_extens.Base.Outcome.{Outcome, ok, ◌>>=◌, ◌>>◌}
use greentic_designer_extens.Capability.Contract.{Semver, Contract}
use greentic_designer_extens.Llm.Defs.{HostCallContext}
use greentic_designer_extens.Runtime.Defs.{RuntimeError, LoadedExtension, ExtensionRuntime, lookup}
use greentic_designer_extens.Types.Wit
use greentic_designer_extens.Types.Defs
use greentic_designer_extens.Types.Maps.{from_design_v01, from_design_v03, wit_diagnostic_to_host}
use greentic_designer_extens.Dispatch.Guest.{
  Guest, invoke_v1, invoke_v2, list_tools, validate_content, design_versions, guardrail_versions,
  default_ctx, resolve_iface_versions, resolve_func, resolve_design_iface, trapped, surface,
  dispatch_instance_ctx, dispatch_instance,
}
use greentic_designer_extens.Dispatch.Guardrail.{GuardrailJson, call_evaluate}

abbrev pub v2_api_version : Text
v2_api_version = codes "greentic.ai/v2"

abbrev pub tools_iface : Text
tools_iface = codes "greentic:extension-design/tools"

abbrev pub validation_iface : Text
validation_iface = codes "greentic:extension-design/validation"

abbrev pub guardrail_iface : Text
guardrail_iface = codes "greentic:extension-design/guardrail"

-- A tool of `contributions.tools` of a description.
pub record Tool (S : Type 0) : Type 0 where
  pub name : Text
  pub description : Option Text
  pub input_schema : Option Text
  pub output_schema : Option Text
  pub capabilities : Option (List Text)
  pub agentic_worker_metadata : Option Text
  pub secret_requirements : List S

abbrev pub or_default : Option Text → Text
or_default none = []
or_default (some t) = t

unfoldable pub contribution_tool_to_definition : {S : Type 0} → Tool S → Defs.ToolDefinition S
contribution_tool_to_definition t = record {
  name = t.name;
  description = or_default t.description;
  input_schema_json = or_default t.input_schema;
  output_schema_json = t.output_schema;
  capabilities = t.capabilities;
  agentic_worker_metadata = t.agentic_worker_metadata;
  secret_requirements = t.secret_requirements;
}

unfoldable pub tool_of_wit : {S : Type 0} → Wit.ToolDefinition → Defs.ToolDefinition S
tool_of_wit d = record {
  name = d.name;
  description = d.description;
  input_schema_json = d.input_schema_json;
  output_schema_json = d.output_schema_json;
  capabilities = d.capabilities;
  agentic_worker_metadata = d.agentic_worker_metadata;
  secret_requirements = [];
}

unfoldable pub result_of_wit : Wit.ValidateResult → Defs.ValidateResult
unfolding wit_diagnostic_to_host
result_of_wit r = record { valid = r.valid; diagnostics = map wit_diagnostic_to_host r.diagnostics }

-- The call of `invoke-tool` at the type of its version.
unfoldable pub call_tool : Guest → Text → Text → Text → Text → Outcome RuntimeError Text
unfolding surface from_design_v01 from_design_v03
call_tool g iface_name version tool_name args_json =
    if text_eq version (codes "0.3.0")
    then surface from_design_v03
        (g.call invoke_v2 iface_name (codes "invoke-tool") (tool_name, args_json))
    else surface from_design_v01
        (g.call invoke_v1 iface_name (codes "invoke-tool") (tool_name, args_json))

unfoldable pub invoke_in : Guest → Text → Text → Outcome RuntimeError Text
unfolding resolve_iface_versions resolve_func call_tool
invoke_in g tool_name args_json = do
  found ← resolve_iface_versions g tools_iface design_versions
  resolve_func g found.0 (codes "invoke-tool")
  call_tool g found.0 found.1 tool_name args_json

unfoldable pub list_wit_tools :
    {S : Type 0} → Guest → Outcome RuntimeError (List (Defs.ToolDefinition S))
unfolding resolve_design_iface resolve_func tool_of_wit
list_wit_tools g = do
  iface_name ← resolve_design_iface g tools_iface
  resolve_func g iface_name (codes "list-tools")
  defs ← trapped (g.call list_tools iface_name (codes "list-tools") tt)
  ok (map tool_of_wit defs)

module _ (s : Semver) (c : Contract)
    (build : HostCallContext → LoadedExtension s c → Outcome Text Guest) where
  unfoldable pub invoke_tool_ctx :
      ExtensionRuntime s c → Text → Text → Text → HostCallContext → Outcome RuntimeError Text
  unfolding dispatch_instance_ctx invoke_in
  invoke_tool_ctx r ext_id tool_name args_json ctx = do
    g ← dispatch_instance_ctx s c build r ext_id ctx
    invoke_in g tool_name args_json

  unfoldable pub invoke_tool : ExtensionRuntime s c → Text → Text → Text → Outcome RuntimeError Text
  unfolding invoke_tool_ctx
  invoke_tool r ext_id tool_name args_json =
      invoke_tool_ctx r ext_id tool_name args_json default_ctx

  -- `api_version` and `tools` are fields of an extension's description.
  unfoldable pub list_tools_of :
      {S : Type 0}
      → (LoadedExtension s c → Text)
      → (LoadedExtension s c → List (Tool S))
      → ExtensionRuntime s c
      → Text
      → Outcome RuntimeError (List (Defs.ToolDefinition S))
  unfolding lookup dispatch_instance list_wit_tools contribution_tool_to_definition
  list_tools_of api_version tools r ext_id = do
    loaded ← lookup s c r ext_id
    (if text_eq (api_version loaded) v2_api_version
        then ok (map contribution_tool_to_definition (tools loaded))
        else (dispatch_instance s c build r ext_id >>= list_wit_tools))

  unfoldable pub validate_content_of :
      ExtensionRuntime s c → Text → Text → Text → Outcome RuntimeError Defs.ValidateResult
  unfolding dispatch_instance resolve_design_iface resolve_func result_of_wit
  validate_content_of r ext_id content_type content_json = do
    g ← dispatch_instance s c build r ext_id
    iface_name ← resolve_design_iface g validation_iface
    resolve_func g iface_name (codes "validate-content")
    result ←
        trapped (
          g.call validate_content iface_name (codes "validate-content")
            (content_type, content_json))
    ok (result_of_wit result)

  unfoldable pub evaluate_guardrail :
      GuardrailJson → ExtensionRuntime s c → Text → Text → Outcome RuntimeError Text
  unfolding dispatch_instance resolve_iface_versions resolve_func call_evaluate
  evaluate_guardrail json r ext_id input_json = do
    g ← dispatch_instance s c build r ext_id
    found ← resolve_iface_versions g guardrail_iface guardrail_versions
    resolve_func g found.0 (codes "evaluate")
    wire ← call_evaluate json g found.0 input_json
    trapped (json.to_string wire)
