-- ===== src/Report/Defs.antt =====
-- tool_metadata_report.rs. The line that is logged is its three categories; the text of a category is
-- its constructor, with the values that it prints.
use greentic_designer_extens.Base.{
  ℕ, ◌-◌, Bool, true, false, not, ◌&&◌, Option, none, some, List, [], ◌∷◌, ◌++◌, Text, text_eq,
  length, is_some, is_blank, if◌then◌else◌, min,
}
use greentic_designer_extens.Log.Defs.{take}
use greentic_designer_extens.Dispatch.Design.{Tool, v2_api_version}

abbrev pub max_names_shown : ℕ
max_names_shown = 3

pub record ToolMetadataGaps : Type 0 where
  pub tools : ℕ
  pub no_description : List Text
  pub no_input_schema : List Text
  pub no_capabilities : List Text

-- `is_none_or(|t| t.trim().is_empty())`.
unfoldable pub lacks_text : Option Text → Bool
lacks_text none = true
lacks_text (some t) = is_blank t

abbrev pub push_if : Bool → Text → List Text → List Text
push_if b name names = if b then names ++ (name ∷ []) else names

-- The loop over the tools.
unfoldable pub gaps_from : {S : Type 0} → List (Tool S) → ToolMetadataGaps → ToolMetadataGaps
unfolding lacks_text
gaps_from [] gaps = gaps
gaps_from (t ∷ tools) gaps = gaps_from tools (record {
  tools = gaps.tools;
  no_description = push_if (lacks_text t.description) t.name gaps.no_description;
  no_input_schema = push_if (lacks_text t.input_schema) t.name gaps.no_input_schema;
  no_capabilities = push_if (not (is_some t.capabilities)) t.name gaps.no_capabilities;
})

abbrev pub no_names : List Text → Bool
no_names [] = true
no_names (n ∷ names) = false

unfoldable pub nothing_missing : ToolMetadataGaps → Bool
nothing_missing gaps =
    no_names gaps.no_description && (no_names gaps.no_input_schema && no_names gaps.no_capabilities)

abbrev pub no_gaps : ℕ → ToolMetadataGaps
no_gaps n = record { tools = n; no_description = []; no_input_schema = []; no_capabilities = [] }

unfoldable pub collect_tool_metadata_gaps :
    {S : Type 0} → Text → List (Tool S) → Option ToolMetadataGaps
unfolding gaps_from nothing_missing
collect_tool_metadata_gaps api_version tools =
    if not (text_eq api_version v2_api_version)
    then none
    else (let gaps = gaps_from tools (no_gaps (length tools)) in
        if nothing_missing gaps then none else some gaps)

pub data Category : Type 0 where
  clean : Category
  shown : (count : ℕ) → (first : List Text) → (more : ℕ) → Category

unfoldable pub format_names : List Text → Category
format_names [] = clean
format_names (n ∷ names) =
    let all_names = n ∷ names in
    let count = min (length all_names) max_names_shown in
    shown (length all_names) (take count all_names) (length all_names - count)
