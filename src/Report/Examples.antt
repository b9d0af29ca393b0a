-- ===== src/Report/Examples.antt =====
-- A tool without a description and capabilities, under each contract.
use greentic_designer_extens.Base.{◌≡◌, refl, ◌⊎◌, none, some, [], ◌∷◌, codes, is_blank}
use greentic_designer_extens.Dispatch.Design.{Tool, v2_api_version}
use greentic_designer_extens.Report.Defs.{
  ToolMetadataGaps, collect_tool_metadata_gaps, format_names, shown,
}
use greentic_designer_extens.Report.Gaps.{Incomplete, AreGaps, collect_tool_metadata_gaps_lem}

abbrev tool : Tool (Unit {0})
tool = record {
  name = codes "t";
  description = some (codes " ");
  input_schema = some (codes "{}");
  output_schema = none;
  capabilities = none;
  agentic_worker_metadata = none;
  secret_requirements = [];
}

names_test :
    format_names (codes "a" ∷ codes "b" ∷ codes "c" ∷ codes "d" ∷ codes "e" ∷ [])
    ≡ shown 5 (codes "a" ∷ codes "b" ∷ codes "c" ∷ []) 2
unfolding format_names
names_test = refl

reported_test :
    collect_tool_metadata_gaps v2_api_version (tool ∷ [])
    ≡ some (record {
      tools = 1;
      no_description = codes "t" ∷ [];
      no_input_schema = [];
      no_capabilities = codes "t" ∷ [];
    })
unfolding collect_tool_metadata_gaps is_blank
reported_test = refl

old_test : collect_tool_metadata_gaps (codes "greentic.ai/v1") (tool ∷ []) ≡ none
unfolding collect_tool_metadata_gaps
old_test = refl

collect_tool_metadata_gaps_lem_example :
    ((v2_api_version ≡ codes "greentic.ai/v2")
      × Incomplete (tool ∷ [])
      × ((gaps : ToolMetadataGaps) × (collect_tool_metadata_gaps v2_api_version (tool ∷ [])
            ≡ some gaps)
          × AreGaps (tool ∷ []) gaps))
    ⊎ (((v2_api_version ≡ codes "greentic.ai/v2") × Incomplete (tool ∷ []) → ⊥)
        × (collect_tool_metadata_gaps v2_api_version (tool ∷ []) ≡ none))
collect_tool_metadata_gaps_lem_example = collect_tool_metadata_gaps_lem v2_api_version (tool ∷ [])
