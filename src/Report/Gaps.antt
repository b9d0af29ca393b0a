-- ===== src/Report/Gaps.antt =====
-- What is reported of the tools of an extension.
use greentic_designer_extens.Base.{
  ℕ, ◌≡◌, refl, sym, ◌∙◌, ◌⊎◌, inl, inr, Bool, true, false, not, ◌&&◌, none, some, List, [], ◌∷◌,
  ◌++◌, map, Memᴰ, Text, text_eq, text_eq_iff, keep, any, any_found, any_of_mem, length, is_some,
  Bool-cases, ◌↔◌, Option, codes, is_blank,
}
use mathlib.Core.List.{append_assoc, append-nil}
use greentic_designer_extens.Dispatch.Design.{Tool, v2_api_version}
use greentic_designer_extens.Report.Defs.{
  ToolMetadataGaps, lacks_text, push_if, gaps_from, no_names, nothing_missing, no_gaps,
  collect_tool_metadata_gaps,
}

abbrev lacks_description : {S : Type 0} → Tool S → Bool
lacks_description t = lacks_text t.description

abbrev lacks_schema : {S : Type 0} → Tool S → Bool
lacks_schema t = lacks_text t.input_schema

abbrev lacks_capabilities : {S : Type 0} → Tool S → Bool
lacks_capabilities t = not (is_some t.capabilities)

-- The names of the tools that a test holds of, in the order of the description.
abbrev names_of : {S : Type 0} → (Tool S → Bool) → List (Tool S) → List Text
names_of {S = S} p tools = map (λ (t : Tool S). t.name) (keep p tools)

push_names :
    {S : Type 0} (p : Tool S → Bool) (t : Tool S) (tools : List (Tool S)) (names : List Text)
    → push_if (p t) t.name names ++ names_of p tools ≡ names ++ names_of p (t ∷ tools)
push_names p t tools names = elim (Bool-cases (p t)) [
  | inl e ↦ rw e (append_assoc names (t.name ∷ []) (names_of p tools))
  | inr e ↦ rw e refl
]

-- The gaps of tools, after those that are there.
abbrev gaps_after : {S : Type 0} → List (Tool S) → ToolMetadataGaps → ToolMetadataGaps
gaps_after tools g = record {
  tools = g.tools;
  no_description = g.no_description ++ names_of lacks_description tools;
  no_input_schema = g.no_input_schema ++ names_of lacks_schema tools;
  no_capabilities = g.no_capabilities ++ names_of lacks_capabilities tools;
}

same_gaps :
    (n : ℕ) {a a' b b' c c' : List Text}
    → a ≡ a'
    → b ≡ b'
    → c ≡ c'
    → ◌≡◌ {A = ToolMetadataGaps}
        (record { tools = n; no_description = a; no_input_schema = b; no_capabilities = c })
        (record { tools = n; no_description = a'; no_input_schema = b'; no_capabilities = c' })
same_gaps n e f h = rw (e, f, h) refl

gaps_from_lem :
    {S : Type 0} (tools : List (Tool S)) (g : ToolMetadataGaps)
    → gaps_from tools g ≡ gaps_after tools g
unfolding gaps_from
gaps_from_lem [] g =
    same_gaps g.tools (sym (append-nil g.no_description)) (sym (append-nil g.no_input_schema))
      (sym (append-nil g.no_capabilities))
gaps_from_lem (t ∷ tools) g =
    gaps_from_lem tools _
    ∙ same_gaps g.tools (push_names lacks_description t tools g.no_description)
        (push_names lacks_schema t tools g.no_input_schema)
        (push_names lacks_capabilities t tools g.no_capabilities)

no_names-any :
    {S : Type 0} (p : Tool S → Bool) (tools : List (Tool S))
    → no_names (names_of p tools) ≡ not (any p tools)
no_names-any p [] = refl
no_names-any p (t ∷ tools) = elim (Bool-cases (p t)) [
  | inl e ↦ rw e refl
  | inr e ↦ rw e (no_names-any p tools)
]

-- The tools leave something out.
abbrev Marked : {S : Type 0} → List (Tool S) → Type 0
Marked {S = S} tools =
    (t : Tool S) × Memᴰ t tools
    × ((lacks_description t ≡ true) ⊎ ((lacks_schema t ≡ true) ⊎ (lacks_capabilities t ≡ true)))

-- The gaps of a list of tools.
abbrev gaps_of : {S : Type 0} → List (Tool S) → ToolMetadataGaps
gaps_of tools = record {
  tools = length tools;
  no_description = names_of lacks_description tools;
  no_input_schema = names_of lacks_schema tools;
  no_capabilities = names_of lacks_capabilities tools;
}

nothing_missing-any :
    {S : Type 0} (tools : List (Tool S))
    → nothing_missing (gaps_of tools) ≡ (
        not (any lacks_description tools)
        && (not (any lacks_schema tools) && not (any lacks_capabilities tools)))
unfolding nothing_missing
nothing_missing-any tools =
    rw
      (
        no_names-any lacks_description tools,
        no_names-any lacks_schema tools,
        no_names-any lacks_capabilities tools,
      )
      refl

missing_cases :
    {S : Type 0} (tools : List (Tool S))
    → (Marked tools × (nothing_missing (gaps_of tools) ≡ false))
      ⊎ ((Marked tools → ⊥) × (nothing_missing (gaps_of tools) ≡ true))
missing_cases tools = elim (Bool-cases (any lacks_description tools)) [
  | inl e ↦
      let (t, i, h) = any_found lacks_description tools e in
      inl ((t, i, inl h), nothing_missing-any tools ∙ rw e refl)
  | inr e ↦ elim (Bool-cases (any lacks_schema tools)) [
    | inl f ↦
        let (t, i, h) = any_found lacks_schema tools f in
        inl ((t, i, inr (inl h)), nothing_missing-any tools ∙ rw (e, f) refl)
    | inr f ↦ elim (Bool-cases (any lacks_capabilities tools)) [
      | inl g ↦
          let (t, i, h) = any_found lacks_capabilities tools g in
          inl ((t, i, inr (inr h)), nothing_missing-any tools ∙ rw (e, f, g) refl)
      | inr g ↦ inr (complete e f g, nothing_missing-any tools ∙ rw (e, f, g) refl)
    ]
  ]
]
  where
    complete :
        any lacks_description tools ≡ false
        → any lacks_schema tools ≡ false
        → any lacks_capabilities tools ≡ false
        → Marked tools
        → ⊥
    complete e f g (t, i, inl h) = cc (e, any_of_mem lacks_description t tools i h)
    complete e f g (t, i, inr (inl h)) = cc (f, any_of_mem lacks_schema t tools i h)
    complete e f g (t, i, inr (inr h)) = cc (g, any_of_mem lacks_capabilities t tools i h)

by_tests :
    {S : Type 0} (api_version : Text) (tools : List (Tool S))
    → ((api_version ≡ v2_api_version)
        × Marked tools
        × (collect_tool_metadata_gaps api_version tools ≡ some (gaps_of tools)))
      ⊎ (((api_version ≡ v2_api_version) × Marked tools → ⊥)
          × (collect_tool_metadata_gaps api_version tools ≡ none))
unfolding collect_tool_metadata_gaps
by_tests api_version tools = elim (Bool-cases (text_eq api_version v2_api_version)) [
  | inr old ↦ inr ((λ x. cc (old, (text_eq_iff api_version _).1 x.0)), rw old refl)
  | inl new ↦
      let version = (text_eq_iff api_version v2_api_version).0 new in
      let gaps = gaps_from_lem tools (no_gaps (length tools)) in
      elim (missing_cases tools) [
        | inl (t, missing) ↦ inl (version, t, rw (new, gaps, missing) refl)
        | inr (complete, none_there) ↦ inr ((λ x. complete x.1), rw (new, gaps, none_there) refl)
      ]
]

-- The text is left out, or is white space alone.
abbrev pub Lacks : Option Text → Type 0
Lacks none = Unit
Lacks (some t) = is_blank t ≡ true

abbrev pub NoDescription : {S : Type 0} → Tool S → Type 0
NoDescription t = Lacks t.description

abbrev pub NoSchema : {S : Type 0} → Tool S → Type 0
NoSchema t = Lacks t.input_schema

abbrev pub NoCapabilities : {S : Type 0} → Tool S → Type 0
NoCapabilities t = t.capabilities ≡ none

-- The names of the tools that a property holds of, in their order.
pub data Selects {S : Type 0} (P : Tool S → Type 0) : List (Tool S) → List Text → Type 0 where
  ended : Selects P [] []
  named :
      (t : Tool S) (tools : List (Tool S)) (names : List Text)
      → P t
      → Selects P tools names
      → Selects P (t ∷ tools) (t.name ∷ names)
  passed_over :
      (t : Tool S) (tools : List (Tool S)) (names : List Text)
      → ¬ P t
      → Selects P tools names
      → Selects P (t ∷ tools) names

-- A tool leaves something out.
abbrev pub Incomplete : {S : Type 0} → List (Tool S) → Type 0
Incomplete {S = S} tools =
    (t : Tool S) × Memᴰ t tools × (NoDescription t ⊎ (NoSchema t ⊎ NoCapabilities t))

pub record AreGaps {S : Type 0} (tools : List (Tool S)) (gaps : ToolMetadataGaps) : Type 0 where
  pub count : gaps.tools ≡ length tools
  pub descriptions : Selects NoDescription tools gaps.no_description
  pub schemas : Selects NoSchema tools gaps.no_input_schema
  pub capabilities : Selects NoCapabilities tools gaps.no_capabilities

lacks_text_iff : (o : Option Text) → (lacks_text o ≡ true) ↔ Lacks o
unfolding lacks_text
lacks_text_iff none = (λ _. tt, λ _. refl)
lacks_text_iff (some t) = (λ h. h, λ h. h)

lacks_capabilities_iff :
    {S : Type 0} (t : Tool S) → (lacks_capabilities t ≡ true) ↔ NoCapabilities t
lacks_capabilities_iff t = by_option t.capabilities
  where
    by_option : (o : Option (List Text)) → (not (is_some o) ≡ true) ↔ (o ≡ none)
    by_option none = (λ _. refl, λ _. refl)
    by_option (some c) = (λ h. cc (h), λ h. cc (h))

names_of-Selects :
    {S : Type 0} (p : Tool S → Bool) (P : Tool S → Type 0)
    → ((t : Tool S) → (p t ≡ true) ↔ P t)
    → (tools : List (Tool S)) → Selects P tools (names_of p tools)
names_of-Selects p P iff [] = ended
names_of-Selects p P iff (t ∷ tools) = elim (Bool-cases (p t)) [
  | inl e ↦ rw e (named t tools _ ((iff t).0 e) (names_of-Selects p P iff tools))
  | inr e ↦ rw e (passed_over t tools _ (λ h. cc (e, (iff t).1 h)) (names_of-Selects p P iff tools))
]

gaps_of-AreGaps : {S : Type 0} (tools : List (Tool S)) → AreGaps tools (gaps_of tools)
gaps_of-AreGaps tools = record {
  count = refl;
  descriptions = names_of-Selects _ _ (λ t. lacks_text_iff t.description) tools;
  schemas = names_of-Selects _ _ (λ t. lacks_text_iff t.input_schema) tools;
  capabilities = names_of-Selects _ _ lacks_capabilities_iff tools;
}

Marked-iff : {S : Type 0} (tools : List (Tool S)) → Marked tools ↔ Incomplete tools
Marked-iff tools = (to, from)
  where
    to : Marked tools → Incomplete tools
    to (t, i, inl h) = (t, i, inl ((lacks_text_iff t.description).0 h))
    to (t, i, inr (inl h)) = (t, i, inr (inl ((lacks_text_iff t.input_schema).0 h)))
    to (t, i, inr (inr h)) = (t, i, inr (inr ((lacks_capabilities_iff t).0 h)))

    from : Incomplete tools → Marked tools
    from (t, i, inl h) = (t, i, inl ((lacks_text_iff t.description).1 h))
    from (t, i, inr (inl h)) = (t, i, inr (inl ((lacks_text_iff t.input_schema).1 h)))
    from (t, i, inr (inr h)) = (t, i, inr (inr ((lacks_capabilities_iff t).1 h)))

-- Gaps are reported exactly for a description of the second contract with a tool that leaves something
-- out; they count the tools and name, in order, those without a description, without a schema of
-- their input and without capabilities, where a text of white space alone counts as none.
pub collect_tool_metadata_gaps_lem :
    {S : Type 0} (api_version : Text) (tools : List (Tool S))
    → ((api_version ≡ codes "greentic.ai/v2")
        × Incomplete tools
        × ((gaps : ToolMetadataGaps) × (collect_tool_metadata_gaps api_version tools ≡ some gaps)
            × AreGaps tools gaps))
      ⊎ (((api_version ≡ codes "greentic.ai/v2") × Incomplete tools → ⊥)
          × (collect_tool_metadata_gaps api_version tools ≡ none))
collect_tool_metadata_gaps_lem api_version tools = elim (by_tests api_version tools) [
  | inl (version, marked, e) ↦
      inl (version, (Marked-iff tools).0 marked, (gaps_of tools, e, gaps_of-AreGaps tools))
  | inr (complete, e) ↦ inr ((λ x. complete (x.0, (Marked-iff tools).1 x.1)), e)
]
