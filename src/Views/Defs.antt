-- ===== src/Views/Defs.antt =====
-- runtime_views.rs, and the definition of a view in types.rs. The types of the contract crate that are
-- passed on as they are, are parameters.
use greentic_designer_extens.Base.{Option, none, some, List, [], ◌∷◌, ◌++◌, Text, codes}
use greentic_designer_extens.Base.Outcome.{Outcome, ok, err}
use greentic_designer_extens.Capability.Contract.{Semver, Contract}
use greentic_designer_extens.Runtime.Defs.{
  FilePath, RuntimeError, wasmtime, LoadedExtension, ExtensionRuntime, lookup,
}
use greentic_designer_extens.Verify.Defs.{pack_relative_path}

pub record ViewTypes : Type 1 where
  pub Surface : Type 0
  pub Placement : Type 0
  pub Visibility : Type 0

module _ (types : ViewTypes) where
  open types use {Surface, Placement, Visibility}

  pub record View : Type 0 where
    pub id : Text
    pub surface : Surface
    pub title_key : Text
    pub title_fallback : Text
    pub icon : Option Text
    pub entry : Text
    pub placement : Placement
    pub min_visibility : Visibility
    pub tools : List Text

  pub record ViewDefinition : Type 0 where
    pub id : Text
    pub surface : Surface
    pub title_key : Text
    pub title_fallback : Text
    pub icon : Option Text
    pub entry : Text
    pub placement : Placement
    pub min_visibility : Visibility
    pub tools : List Text
    pub asset_dir : FilePath
    pub entry_path : FilePath

  -- The message of the error is the id of the view.
  unfoldable pub pack_relative : Text → FilePath → Text → Outcome RuntimeError FilePath
  unfolding pack_relative_path
  pack_relative id dir rel = elim (pack_relative_path dir rel) [
    | none ↦ err (wasmtime id)
    | some path ↦ ok path
  ]

  abbrev pub definition_of : View → FilePath → FilePath → ViewDefinition
  definition_of v asset_dir entry_path = record {
    id = v.id;
    surface = v.surface;
    title_key = v.title_key;
    title_fallback = v.title_fallback;
    icon = v.icon;
    entry = v.entry;
    placement = v.placement;
    min_visibility = v.min_visibility;
    tools = v.tools;
    asset_dir = asset_dir;
    entry_path = entry_path;
  }

  unfoldable pub view_to_definition : View → FilePath → Outcome RuntimeError ViewDefinition
  unfolding pack_relative
  view_to_definition v source_dir =
      elim (pack_relative v.id source_dir (codes "assets/views/" ++ v.id)) [
        | err e ↦ err e
        | ok asset_dir ↦ elim (pack_relative v.id asset_dir v.entry) [
          | err e ↦ err e
          | ok entry_path ↦ ok (definition_of v asset_dir entry_path)
        ]
      ]

  -- `map` and `collect` into a `Result`: the first error ends it.
  unfoldable pub definitions_of : FilePath → List View → Outcome RuntimeError (List ViewDefinition)
  unfolding view_to_definition
  definitions_of source_dir [] = ok []
  definitions_of source_dir (v ∷ views) = elim (view_to_definition v source_dir) [
    | err e ↦ err e
    | ok d ↦ elim (definitions_of source_dir views) [ err e ↦ err e | ok ds ↦ ok (d ∷ ds) ]
  ]

  module _ (s : Semver) (c : Contract) (views_of : LoadedExtension s c → List View) where
    unfoldable pub list_views :
        ExtensionRuntime s c → Text → Outcome RuntimeError (List ViewDefinition)
    unfolding lookup definitions_of
    list_views r ext_id = elim (lookup s c r ext_id) [
      | err e ↦ err e
      | ok loaded ↦ definitions_of loaded.source_dir (views_of loaded)
    ]
