-- ===== src/Dispatch/Knowledge.antt =====
-- runtime_knowledge.rs.
use greentic_designer_extens.Base.{Option, List, map, ℕ, Text, codes, text_eq, if◌then◌else◌}
use greentic_designer_extens.Base.Outcome.{Outcome, ok, ◌>>=◌, ◌>>◌}
use greentic_designer_extens.Capability.Contract.{Semver, Contract}
use greentic_designer_extens.Llm.Defs.{HostCallContext}
use greentic_designer_extens.Runtime.Defs.{RuntimeError, LoadedExtension, ExtensionRuntime}
use greentic_designer_extens.Types.Wit
use greentic_designer_extens.Types.Defs as Host
use greentic_designer_extens.Types.Maps.{from_design_v01, from_design_v03}
use greentic_designer_extens.Dispatch.Guest.{
  Guest, fragments_call, entries_call, entry_v1, entry_v2, suggest_call, design_versions,
  resolve_iface_versions, resolve_func, resolve_design_iface, trapped, surface_as,
  dispatch_instance,
}

abbrev pub prompting_iface : Text
prompting_iface = codes "greentic:extension-design/prompting"

abbrev pub knowledge_iface : Text
knowledge_iface = codes "greentic:extension-design/knowledge"

unfoldable pub fragment_of_wit : Wit.PromptFragment → Host.PromptFragment
fragment_of_wit f = record {
  section = f.section;
  content_markdown = f.content_markdown;
  priority = f.priority;
}

unfoldable pub wit_summary_to_host : Wit.EntrySummary → Host.KnowledgeEntrySummary
wit_summary_to_host e = record { id = e.id; title = e.title; category = e.category; tags = e.tags }

unfoldable pub entry_of_wit : Wit.Entry → Host.KnowledgeEntry
entry_of_wit e = record {
  id = e.id;
  title = e.title;
  category = e.category;
  tags = e.tags;
  content_json = e.content_json;
}

unfoldable pub prompt_fragments_in : Guest → Outcome RuntimeError (List Host.PromptFragment)
unfolding resolve_design_iface resolve_func fragment_of_wit
prompt_fragments_in g = do
  iface_name ← resolve_design_iface g prompting_iface
  resolve_func g iface_name (codes "system-prompt-fragments")
  frags ← trapped (g.call fragments_call iface_name (codes "system-prompt-fragments") tt)
  ok (map fragment_of_wit frags)

unfoldable pub knowledge_list_in :
    Guest → Option Text → Outcome RuntimeError (List Host.KnowledgeEntrySummary)
unfolding resolve_design_iface resolve_func wit_summary_to_host
knowledge_list_in g category_filter = do
  iface_name ← resolve_design_iface g knowledge_iface
  resolve_func g iface_name (codes "list-entries")
  entries ← trapped (g.call entries_call iface_name (codes "list-entries") category_filter)
  ok (map wit_summary_to_host entries)

-- The call of `get-entry` at the type of its version.
unfoldable pub call_entry : Guest → Text → Text → Text → Outcome RuntimeError Host.KnowledgeEntry
unfolding surface_as entry_of_wit from_design_v01 from_design_v03
call_entry g iface_name version entry_id =
    if text_eq version (codes "0.3.0")
    then surface_as entry_of_wit from_design_v03
        (g.call entry_v2 iface_name (codes "get-entry") entry_id)
    else surface_as entry_of_wit from_design_v01
        (g.call entry_v1 iface_name (codes "get-entry") entry_id)

unfoldable pub knowledge_get_in : Guest → Text → Outcome RuntimeError Host.KnowledgeEntry
unfolding resolve_iface_versions resolve_func call_entry
knowledge_get_in g entry_id = do
  found ← resolve_iface_versions g knowledge_iface design_versions
  resolve_func g found.0 (codes "get-entry")
  call_entry g found.0 found.1 entry_id

unfoldable pub knowledge_suggest_in :
    Guest → Text → ℕ → Outcome RuntimeError (List Host.KnowledgeEntrySummary)
unfolding resolve_design_iface resolve_func wit_summary_to_host
knowledge_suggest_in g query limit = do
  iface_name ← resolve_design_iface g knowledge_iface
  resolve_func g iface_name (codes "suggest-entries")
  entries ← trapped (g.call suggest_call iface_name (codes "suggest-entries") (query, limit))
  ok (map wit_summary_to_host entries)

module _ (s : Semver) (c : Contract)
    (build : HostCallContext → LoadedExtension s c → Outcome Text Guest) where
  unfoldable pub prompt_fragments :
      ExtensionRuntime s c → Text → Outcome RuntimeError (List Host.PromptFragment)
  unfolding dispatch_instance prompt_fragments_in
  prompt_fragments r ext_id = dispatch_instance s c build r ext_id >>= prompt_fragments_in

  unfoldable pub knowledge_list :
      ExtensionRuntime s c
      → Text
      → Option Text
      → Outcome RuntimeError (List Host.KnowledgeEntrySummary)
  unfolding dispatch_instance knowledge_list_in
  knowledge_list r ext_id category_filter = do
    g ← dispatch_instance s c build r ext_id
    knowledge_list_in g category_filter

  unfoldable pub knowledge_get :
      ExtensionRuntime s c → Text → Text → Outcome RuntimeError Host.KnowledgeEntry
  unfolding dispatch_instance knowledge_get_in
  knowledge_get r ext_id entry_id = do
    g ← dispatch_instance s c build r ext_id
    knowledge_get_in g entry_id

  unfoldable pub knowledge_suggest :
      ExtensionRuntime s c
      → Text
      → Text
      → ℕ
      → Outcome RuntimeError (List Host.KnowledgeEntrySummary)
  unfolding dispatch_instance knowledge_suggest_in
  knowledge_suggest r ext_id query limit = do
    g ← dispatch_instance s c build r ext_id
    knowledge_suggest_in g query limit
