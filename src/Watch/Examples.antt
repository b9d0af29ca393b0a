-- ===== src/Watch/Examples.antt =====
-- A run of the watcher over a small tree: an install, a refused downgrade, and an uninstall.
use greentic_designer_extens.Base.{
  ◌≡◌, refl, ◌≢◌, ◌↔◌, ◌⊎◌, false, none, some, List, [], ◌∷◌, Memᴰ, Text, codes, if◌then◌else◌,
}
use greentic_designer_extens.Base.Outcome.{ok, err}
use greentic_designer_extens.Capability.Sample.{sample, kinds}
use greentic_designer_extens.Capability.Registry
use greentic_designer_extens.Capability.Registry.{
  OfferedBinding, offers_of, get, push_at, add_offering,
}
use greentic_designer_extens.Runtime.Defs.{
  FilePath, path_eq, signature_invalid, extension_installed, extension_removed, LoadedExtension,
  ExtensionRuntime, Gate, start, find_id, insert_id, without_id, is_downgrade, rebuild_registry,
  register_loaded_from_dir, handle_added_or_modified, mutate_loaded, offer_all, rebuild_from,
  reload_edit, announce, announce_install, emit, report_eviction, evict, evict_edit,
}
use greentic_designer_extens.Runtime.Rebuild.{Advertised}
use greentic_designer_extens.Runtime.Invariant.{IsConsistent}
use greentic_designer_extens.Runtime.Reloads.{Reloaded, handle_added_or_modified-Reloaded}
use greentic_designer_extens.Watch.Defs.{
  modified, removed, FileSystem, present, absent, unreadable, DiscoveryPaths, all_roots, home,
  has_vanished, is_known_kind_dir, names_kind, is_extension_dir, find_extension_dir, vanished_ids,
  evict_all, evict_vanished_extensions, is_state_file, reload_at, handle_fs_event,
}
use greentic_designer_extens.Watch.Walk.{Owns, Nearest, find_extension_dir_iff}
use greentic_designer_extens.Runtime.Downgrades.{IsOlder}
use greentic_designer_extens.Watch.Events.{event_no_downgrade, removed_lem, failed_event_unchanged}
use greentic_designer_extens.Watch.Runs.{
  Reachable, started, registered, Reachable-IsConsistent, Reachable-offers,
}

watching : Unit {0}
unfolding handle_fs_event reload_at is_state_file evict_vanished_extensions evict_all vanished_ids
    find_extension_dir is_extension_dir names_kind is_known_kind_dir has_vanished home all_roots
    register_loaded_from_dir handle_added_or_modified mutate_loaded offer_all rebuild_from
    rebuild_registry reload_edit announce announce_install emit report_eviction evict evict_edit
    find_id insert_id without_id is_downgrade start offers_of Registry.new get push_at add_offering
watching = tt

abbrev root : FilePath
root = codes "extensions" ∷ codes "home" ∷ []

abbrev demo_dir : FilePath
demo_dir = codes "demo" ∷ codes "design" ∷ root

abbrev paths : DiscoveryPaths
paths = record { user = root; project = none }

-- One description, in the demo's directory.
abbrev there : FileSystem
there = record {
  exists = path_eq (codes "describe.json" ∷ demo_dir);
  symlink_metadata = λ p. present;
}

abbrev gone : FileSystem
gone = record {
  exists = λ p. false;
  symlink_metadata = λ p. if path_eq p demo_dir then absent else unreadable;
}

abbrev demo : Text → LoadedExtension sample kinds
demo version = record {
  id = codes "demo";
  kind = codes "design";
  version = version;
  offered = record { id = codes "cap"; version = codes "1" } ∷ [];
  source_dir = demo_dir;
  component = codes "w";
}

abbrev gate_of : Text → Gate sample kinds
gate_of version dir = ok (demo version)

abbrev first : ExtensionRuntime sample kinds
first =
    (register_loaded_from_dir sample kinds (gate_of (codes "2")) demo_dir (start sample kinds)).1

first-Reachable : Reachable sample kinds first
first-Reachable = registered (gate_of (codes "2")) demo_dir (start sample kinds) started

first-IsConsistent : IsConsistent sample kinds first
first-IsConsistent = Reachable-IsConsistent sample kinds first first-Reachable

abbrev icon : FilePath
icon = codes "icon.svg" ∷ demo_dir

offered_binding : List (OfferedBinding sample kinds)
offered_binding =
    record {
      extension_id = codes "demo";
      cap_id = codes "cap";
      version = 1;
      kind = codes "design";
      export_path = [];
    }
    ∷ []

run_tests :
    (offers_of sample kinds first.capability_registry (codes "cap") ≡ offered_binding)
    × ((handle_fs_event sample kinds (gate_of (codes "1")) there paths (modified icon) first).0
        ≡ err (signature_invalid (codes "demo")))
    × ((evict_vanished_extensions sample kinds gone first).loaded ≡ [])
    × ((evict_vanished_extensions sample kinds gone first).events
        ≡ extension_removed (codes "demo") ∷ extension_installed (codes "demo") ∷ [])
unfolding watching offered_binding
run_tests = (refl, refl, refl, refl)

walk_test :
    (find_extension_dir sample kinds there (root ∷ []) icon ≡ some demo_dir)
    × (find_extension_dir sample kinds there (demo_dir ∷ []) icon ≡ none)
unfolding watching
walk_test = (refl, refl)

find_extension_dir_iff_example :
    (find_extension_dir sample kinds there (root ∷ []) icon ≡ some demo_dir) ↔ (
      Owns sample kinds there (root ∷ []) demo_dir icon
      × Nearest sample kinds there (root ∷ []) demo_dir icon)
find_extension_dir_iff_example = find_extension_dir_iff sample kinds there (root ∷ []) icon demo_dir

Reachable-IsConsistent_example : IsConsistent sample kinds first
Reachable-IsConsistent_example = Reachable-IsConsistent sample kinds first first-Reachable

Reachable-offers_example :
    Memᴰ
      (record {
        extension_id = codes "demo";
        cap_id = codes "cap";
        version = 1;
        kind = codes "design";
        export_path = [];
      })
      (offers_of sample kinds first.capability_registry (codes "cap"))
    ↔ ((codes "cap" ≡ codes "cap")
        × Advertised sample kinds first.loaded (record {
          extension_id = codes "demo";
          cap_id = codes "cap";
          version = 1;
          kind = codes "design";
          export_path = [];
        }))
Reachable-offers_example =
    Reachable-offers sample kinds first first-Reachable
      (record {
        extension_id = codes "demo";
        cap_id = codes "cap";
        version = 1;
        kind = codes "design";
        export_path = [];
      })
      (codes "cap")

handle_added_or_modified-Reloaded_example :
    Reloaded sample kinds
      (gate_of (codes "1"))
      demo_dir
      first
      (handle_added_or_modified sample kinds (gate_of (codes "1")) demo_dir first)
handle_added_or_modified-Reloaded_example =
    handle_added_or_modified-Reloaded sample kinds (gate_of (codes "1")) demo_dir first
      first-IsConsistent

event_no_downgrade_example :
    (demo (codes "3") ≡ demo (codes "2")) ⊎ ¬ IsOlder sample (codes "2") (codes "3")
unfolding watching
event_no_downgrade_example =
    event_no_downgrade sample kinds (gate_of (codes "3")) there paths first (modified icon)
      (codes "demo") (demo (codes "2")) (demo (codes "3")) first-IsConsistent refl refl

failed_event_unchanged_example :
    (handle_fs_event sample kinds (gate_of (codes "1")) there paths (modified icon) first).1 ≡ first
unfolding watching
failed_event_unchanged_example =
    failed_event_unchanged sample kinds (gate_of (codes "1")) there paths first (modified icon)
      (signature_invalid (codes "demo")) first-IsConsistent refl

removed_lem_example :
    ((handle_fs_event sample kinds (gate_of (codes "1")) gone paths (removed icon) first).0 ≡ ok tt)
    × ((e : Text × LoadedExtension sample kinds)
        → Memᴰ e
            (handle_fs_event sample kinds
              (gate_of (codes "1"))
              gone
              paths
              (removed icon)
              first).1.loaded
          ↔ (Memᴰ e first.loaded × (gone.symlink_metadata e.1.source_dir ≢ absent)))
removed_lem_example =
    removed_lem sample kinds (gate_of (codes "1")) gone paths first icon first-IsConsistent
      (λ dir e f. cc (f))
