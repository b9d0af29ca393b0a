-- ===== src/Views/Examples.antt =====
-- A view with its entry in a folder, and one whose entry would leave its assets.
use greentic_designer_extens.Base.{◌≡◌, refl, none, List, [], ◌∷◌, Text, codes}
use greentic_designer_extens.Base.Outcome.{ok, err}
use greentic_designer_extens.Capability.Sample.{sample, kinds}
use greentic_designer_extens.Runtime.Defs.{
  FilePath, LoadedExtension, ExtensionRuntime, start, lookup, wasmtime,
}
use greentic_designer_extens.Views.Defs.{
  ViewTypes, View, ViewDefinition, definition_of, view_to_definition, list_views,
}
use greentic_designer_extens.Views.Placed.{
  views_dir, EachPlaced, assets_IsName, views_IsName, view_to_definition_lem, list_views-EachPlaced,
}

abbrev types : ViewTypes
types = record { Surface = Text; Placement = Text; Visibility = Text }

abbrev view_at : Text → View types
view_at entry = record {
  id = codes "views";
  surface = codes "designer";
  title_key = codes "t";
  title_fallback = codes "T";
  icon = none;
  entry = entry;
  placement = codes "side";
  min_visibility = codes "all";
  tools = [];
}

abbrev pack : FilePath
pack = codes "demo" ∷ []

abbrev demo : LoadedExtension sample kinds
demo = record {
  id = codes "demo";
  kind = codes "design";
  version = codes "1";
  offered = [];
  source_dir = pack;
  component = codes "w";
}

abbrev runtime : ExtensionRuntime sample kinds
runtime = record (start sample kinds) { loaded = (codes "demo", demo) ∷ [] }

abbrev views_of : LoadedExtension sample kinds → List (View types)
views_of ext = view_at (codes "assets/views") ∷ []

abbrev placed : ViewDefinition types
placed =
    definition_of types (view_at (codes "assets/views")) (codes "views" ∷ views_dir pack)
      (codes "views" ∷ codes "assets" ∷ codes "views" ∷ views_dir pack)

escaping_test :
    view_to_definition types (view_at (codes "../x")) pack ≡ err (wasmtime (codes "views"))
unfolding view_to_definition
escaping_test = refl

listed_test : list_views types sample kinds views_of runtime (codes "demo") ≡ ok (placed ∷ [])
unfolding list_views
listed_test = refl

list_views-EachPlaced_example :
    (ext : LoadedExtension sample kinds) × (lookup sample kinds runtime (codes "demo") ≡ ok ext)
    × EachPlaced types ext.source_dir (views_of ext) (placed ∷ [])
list_views-EachPlaced_example =
    list_views-EachPlaced types sample kinds views_of runtime (codes "demo") (placed ∷ [])
      listed_test

view_to_definition_lem_example :
    view_to_definition types (view_at (codes "assets/views")) pack ≡ ok placed
view_to_definition_lem_example =
    view_to_definition_lem types (view_at (codes "assets/views")) pack (codes "assets")
      (codes "views" ∷ []) views_IsName (assets_IsName, (views_IsName, tt)) refl
