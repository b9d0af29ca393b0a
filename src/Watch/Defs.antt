-- ===== src/Watch/Defs.antt =====
-- runtime_watch.rs. The file system is a parameter that does not change while an event is handled;
-- the watcher's thread and its channels are left out.
use greentic_designer_extens.Base.{
  Bool, true, false, Option, none, some, List, [], ◌∷◌, Text, codes, text_eq, any, collect, ◌&&◌,
  if◌then◌else◌,
}
use greentic_designer_extens.Base.Outcome.{Outcome, ok}
use greentic_designer_extens.Capability.Contract.{Semver, Contract}
use greentic_designer_extens.Runtime.Defs.{
  FilePath, path_eq, RuntimeError, state_file_changed, Loaded, ExtensionRuntime, Gate, emit, evict,
  handle_added_or_modified,
}

abbrev pub state_filename : Text
state_filename = codes "extensions-state.json"

-- watcher.rs
pub data FsEvent : Type 0 where
  added modified removed : (path : FilePath) → FsEvent

-- What `symlink_metadata` answers: an entry, `NotFound`, or another error.
pub data Stat : Type 0 where
  present absent unreadable : Stat

-- `FilePath::exists` and `symlink_metadata`.
pub record FileSystem : Type 0 where
  pub exists : FilePath → Bool
  pub symlink_metadata : FilePath → Stat

-- discovery.rs
pub record DiscoveryPaths : Type 0 where
  pub user : FilePath
  pub project : Option FilePath

unfoldable pub all_roots : DiscoveryPaths → List FilePath
all_roots paths = paths.user ∷ elim (paths.project) [ none ↦ [] | some p ↦ p ∷ [] ]

-- `FilePath::parent`, none for the root.
abbrev pub parent : FilePath → Option FilePath
parent [] = none
parent (name ∷ p) = some p

unfoldable pub home : DiscoveryPaths → Option FilePath
home paths = parent paths.user

-- `FilePath::file_name`, which answers nothing for `..`.
abbrev pub file_name : FilePath → Option Text
file_name [] = none
file_name (name ∷ p) = if text_eq name (codes "..") then none else some name

unfoldable pub has_vanished : FileSystem → FilePath → Bool
has_vanished fs dir = elim (fs.symlink_metadata dir) [
  | present ↦ false
  | absent ↦ true
  | unreadable ↦ false
]

module _ (s : Semver) (c : Contract) where
  open c use {all_kinds, dir_name, describe_entry_name}

  unfoldable pub is_known_kind_dir : Text → Bool
  is_known_kind_dir name = any (λ k. text_eq (dir_name k) name) all_kinds

  -- `is_some_and` on the name of the kind directory.
  unfoldable pub names_kind : Option Text → Bool
  unfolding is_known_kind_dir
  names_kind none = false
  names_kind (some name) = is_known_kind_dir name

  unfoldable pub is_extension_dir : List FilePath → FilePath → Bool
  unfolding names_kind
  is_extension_dir roots dir = elim (parent dir) [
    | none ↦ false
    | some kind_dir ↦ elim (parent kind_dir) [
      | none ↦ false
      | some root ↦
          if any (λ r. path_eq r root) roots then names_kind (file_name kind_dir) else false
    ]
  ]

  unfoldable pub find_extension_dir : FileSystem → List FilePath → FilePath → Option FilePath
  unfolding is_extension_dir
  find_extension_dir fs roots [] =
      if fs.exists (describe_entry_name ∷ []) && is_extension_dir roots [] then some [] else none
  find_extension_dir fs roots (name ∷ p) =
      let above = find_extension_dir fs roots p in
      if fs.exists (describe_entry_name ∷ name ∷ p) && is_extension_dir roots (name ∷ p)
      then some (name ∷ p)
      else above

  unfoldable pub vanished_ids : FileSystem → Loaded s c → List Text
  unfolding has_vanished
  vanished_ids fs loaded =
      collect (λ e. if has_vanished fs e.1.source_dir then some e.0 else none) loaded

  unfoldable pub evict_all : List Text → ExtensionRuntime s c → ExtensionRuntime s c
  unfolding evict
  evict_all [] r = r
  evict_all (id ∷ ids) r = evict_all ids (evict s c id r)

  unfoldable pub evict_vanished_extensions :
      FileSystem → ExtensionRuntime s c → ExtensionRuntime s c
  unfolding vanished_ids evict_all
  evict_vanished_extensions fs r = evict_all (vanished_ids fs r.loaded) r

  abbrev pub path_of : FsEvent → FilePath
  path_of (added p) = p
  path_of (modified p) = p
  path_of (removed p) = p

  unfoldable pub is_state_file : DiscoveryPaths → FilePath → Bool
  unfolding home
  is_state_file paths path = elim (home paths) [
    | none ↦ false
    | some dir ↦ path_eq path (state_filename ∷ dir)
  ]

  unfoldable pub reload_at :
      Gate s c
      → Option FilePath
      → ExtensionRuntime s c
      → Outcome RuntimeError (Unit {0}) × ExtensionRuntime s c
  unfolding handle_added_or_modified
  reload_at gate none r = (ok tt, r)
  reload_at gate (some dir) r = handle_added_or_modified s c gate dir r

  unfoldable pub handle_fs_event :
      Gate s c
      → FileSystem
      → DiscoveryPaths
      → FsEvent
      → ExtensionRuntime s c
      → Outcome RuntimeError (Unit {0}) × ExtensionRuntime s c
  unfolding emit is_state_file all_roots find_extension_dir evict_vanished_extensions reload_at
  handle_fs_event gate fs paths event r =
      if is_state_file paths (path_of event)
      then (ok tt, emit s c state_file_changed r)
      else elim event [
        | added p ↦ reload_at gate (find_extension_dir fs (all_roots paths) p) r
        | modified p ↦ reload_at gate (find_extension_dir fs (all_roots paths) p) r
        | removed p ↦ (ok tt, evict_vanished_extensions fs r)
      ]
