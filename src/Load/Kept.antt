-- ===== src/Load/Kept.antt =====
-- What a gate's answers have in common, each operation of the runtime keeps for all that is loaded.
use greentic_designer_extens.Base.{
  ◌≡◌, inl, inr, Option, none, some, List, [], ◌∷◌, Text, text_eq, All, Bool-cases, Option-cases,
}
use greentic_designer_extens.Base.Outcome.{Outcome, ok, err}
use greentic_designer_extens.Capability.Contract.{Semver, Contract}
use greentic_designer_extens.Runtime.Defs.{
  FilePath, RuntimeError, LoadedExtension, Loaded, ExtensionRuntime, Gate, emit, find_id, insert_id,
  without_id, id_at, announce_install, register_loaded_from_dir, removal_edit, handle_removal,
  report_eviction, evict_edit, evict, mutate_loaded,
}
use greentic_designer_extens.Runtime.Invariant.{IsConsistent, keep-All, mutate_loaded_cases}
use greentic_designer_extens.Runtime.Reloads.{
  loaded_cases, Reloaded, rejected, downgraded, unreadable, newly_loaded, exchanged,
  handle_added_or_modified-Reloaded,
}
use greentic_designer_extens.Watch.Defs.{
  FsEvent, added, modified, removed, FileSystem, DiscoveryPaths, evict_all,
  evict_vanished_extensions, vanished_ids, is_state_file, all_roots, find_extension_dir, reload_at,
  handle_fs_event,
}

module _ (s : Semver) (c : Contract) (P : LoadedExtension s c → Type 0) where
  abbrev pub Every : ExtensionRuntime s c → Type 0
  Every r = All (λ e. P e.1) r.loaded

  abbrev pub Answers : Gate s c → Type 0
  Answers gate = (dir : FilePath) (ext : LoadedExtension s c) → gate dir ≡ ok ext → P ext

  insert_id-Every :
      (k : Text) (ext : LoadedExtension s c) (m : Loaded s c)
      → P ext
      → All (λ e. P e.1) m
      → All (λ e. P e.1) (insert_id s c k ext m)
  unfolding insert_id
  insert_id-Every k ext [] p h = (p, tt)
  insert_id-Every k ext ((j, w) ∷ m) p h = elim (Bool-cases (text_eq j k)) [
    | inl same ↦ rw same (p, h.1)
    | inr other ↦ rw other (h.0, insert_id-Every k ext m p h.1)
  ]

  mutate_loaded-Every :
      {T : Type 0} (edit : Loaded s c → T × Loaded s c) (r : ExtensionRuntime s c)
      → Every r
      → All (λ e. P e.1) (edit r.loaded).1
      → Every (mutate_loaded s c edit r).1
  mutate_loaded-Every edit r h k =
      mutate_loaded_cases s c (λ x. Every x.1) edit r (λ e bad. h) (λ reg good. k)

  announce_install-Every :
      (id : Text) (x : Outcome RuntimeError (Unit {0}) × ExtensionRuntime s c)
      → Every x.1
      → Every (announce_install s c id x).1
  unfolding announce_install emit
  announce_install-Every id (err e, r) h = h
  announce_install-Every id (ok _, r) h = h

  pub register_loaded_from_dir-Every :
      (gate : Gate s c) (dir : FilePath) (r : ExtensionRuntime s c)
      → Answers gate
      → Every r
      → Every (register_loaded_from_dir s c gate dir r).1
  unfolding register_loaded_from_dir
  register_loaded_from_dir-Every gate dir r a h = elim (loaded_cases s c (gate dir)) [
    | inl (e, bad) ↦ rw (bad, register_loaded_from_dir) h
    | inr (ext, loads) ↦
        rw (loads, register_loaded_from_dir)
          (announce_install-Every ext.id _ (
            mutate_loaded-Every (λ map. (tt, insert_id s c ext.id ext map)) r h
              (insert_id-Every ext.id ext r.loaded (a dir ext loads) h)))
  ]

  Reloaded-Every :
      (gate : Gate s c) (dir : FilePath) (r : ExtensionRuntime s c)
      (x : Outcome RuntimeError (Unit {0}) × ExtensionRuntime s c)
      → Reloaded s c gate dir r x
      → Answers gate
      → Every r
      → Every x.1
  Reloaded-Every gate dir r _ (rejected e bad) a h = h
  Reloaded-Every gate dir r _ (downgraded ext old loads found older) a h = h
  Reloaded-Every gate dir r _ (unreadable ext e loads bad) a h = h
  Reloaded-Every gate dir r _ (newly_loaded ext reg loads absent good) a h =
      insert_id-Every ext.id ext r.loaded (a dir ext loads) h
  Reloaded-Every gate dir r _ (exchanged ext old reg loads found newer good) a h =
      insert_id-Every ext.id ext r.loaded (a dir ext loads) h

  report_eviction-Every :
      (x : Outcome RuntimeError (Option Text) × ExtensionRuntime s c)
      → Every x.1
      → Every (report_eviction s c x)
  unfolding report_eviction emit
  report_eviction-Every (err e, r) h = h
  report_eviction-Every (ok none, r) h = h
  report_eviction-Every (ok (some id), r) h = h

  without_id-Every :
      (id : Text) (m : Loaded s c) → All (λ e. P e.1) m → All (λ e. P e.1) (without_id s c id m)
  unfolding without_id
  without_id-Every id m h = keep-All s c (λ e. P e.1) _ m h

  removal_edit-Every :
      (dir : FilePath) (m : Loaded s c)
      → All (λ e. P e.1) m
      → All (λ e. P e.1) (removal_edit s c dir m).1
  unfolding removal_edit
  removal_edit-Every dir m h = elim (Option-cases (id_at s c dir m)) [
    | inl e ↦ rw (e, removal_edit) h
    | inr (id, e) ↦ rw (e, removal_edit) (without_id-Every id m h)
  ]

  evict_edit-Every :
      (id : Text) (m : Loaded s c) → All (λ e. P e.1) m → All (λ e. P e.1) (evict_edit s c id m).1
  unfolding evict_edit
  evict_edit-Every id m h = elim (Option-cases (find_id s c id m)) [
    | inl e ↦ rw (e, evict_edit) h
    | inr (x, e) ↦ rw (e, evict_edit) (without_id-Every id m h)
  ]

  pub handle_removal-Every :
      (dir : FilePath) (r : ExtensionRuntime s c) → Every r → Every (handle_removal s c dir r)
  unfolding handle_removal removal_edit
  handle_removal-Every dir r h =
      report_eviction-Every _
        (mutate_loaded-Every (removal_edit s c dir) r h (removal_edit-Every dir r.loaded h))

  evict-Every : (id : Text) (r : ExtensionRuntime s c) → Every r → Every (evict s c id r)
  unfolding evict evict_edit
  evict-Every id r h =
      report_eviction-Every _
        (mutate_loaded-Every (evict_edit s c id) r h (evict_edit-Every id r.loaded h))

  evict_all-Every :
      (ids : List Text) (r : ExtensionRuntime s c) → Every r → Every (evict_all s c ids r)
  unfolding evict_all
  evict_all-Every [] r h = h
  evict_all-Every (id ∷ ids) r h = evict_all-Every ids (evict s c id r) (evict-Every id r h)

  reload_at-Every :
      (gate : Gate s c) (dir : Option FilePath) (r : ExtensionRuntime s c)
      → Answers gate
      → IsConsistent s c r
      → Every r
      → Every (reload_at s c gate dir r).1
  unfolding reload_at
  reload_at-Every gate none r a v h = h
  reload_at-Every gate (some dir) r a v h =
      Reloaded-Every gate dir r _ (handle_added_or_modified-Reloaded s c gate dir r v) a h

  pub handle_fs_event-Every :
      (gate : Gate s c) (fs : FileSystem) (paths : DiscoveryPaths) (event : FsEvent)
      (r : ExtensionRuntime s c)
      → Answers gate
      → IsConsistent s c r
      → Every r
      → Every (handle_fs_event s c gate fs paths event r).1
  unfolding handle_fs_event evict_vanished_extensions emit
  handle_fs_event-Every gate fs paths (added p) r a v h =
      elim (Bool-cases (is_state_file s c paths p)) [
        | inl e ↦ rw (e, handle_fs_event) h
        | inr e ↦
            rw (e, handle_fs_event)
              (reload_at-Every gate (find_extension_dir s c fs (all_roots paths) p) r a v h)
      ]
  handle_fs_event-Every gate fs paths (modified p) r a v h =
      elim (Bool-cases (is_state_file s c paths p)) [
        | inl e ↦ rw (e, handle_fs_event) h
        | inr e ↦
            rw (e, handle_fs_event)
              (reload_at-Every gate (find_extension_dir s c fs (all_roots paths) p) r a v h)
      ]
  handle_fs_event-Every gate fs paths (removed p) r a v h =
      elim (Bool-cases (is_state_file s c paths p)) [
        | inl e ↦ rw (e, handle_fs_event) h
        | inr e ↦ rw (e, handle_fs_event) (evict_all-Every (vanished_ids s c fs r.loaded) r h)
      ]
