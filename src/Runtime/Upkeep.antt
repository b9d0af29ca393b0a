-- ===== src/Runtime/Upkeep.antt =====
-- Registration and hot reload keep the invariant.
use greentic_designer_extens.Base.{◌≡◌, inl, inr, List, Text}
use greentic_designer_extens.Base.Outcome.{Outcome, ok, err}
use greentic_designer_extens.Capability.Contract.{Semver, Contract}
use greentic_designer_extens.Capability.Registry.{CapabilityRegistry}
use greentic_designer_extens.Runtime.Defs.{
  RuntimeEvent, FilePath, RuntimeError, LoadedExtension, ExtensionRuntime, Gate, insert_id,
  rebuild_registry, announce_install, emit, register_loaded_from_dir, handle_added_or_modified,
}
use greentic_designer_extens.Runtime.Invariant.{
  IsConsistent, mutate_loaded-IsConsistent, insert_id-Distinct, insert_id-keyed,
}
use greentic_designer_extens.Runtime.Reloads.{
  loaded_cases, Reloaded, rejected, downgraded, unreadable, newly_loaded, exchanged,
  handle_added_or_modified-Reloaded,
}

module _ (s : Semver) (c : Contract) where
  insert-IsConsistent :
      (ext : LoadedExtension s c) (r : ExtensionRuntime s c) (reg : CapabilityRegistry s c)
      (events : List RuntimeEvent)
      → IsConsistent s c r
      → rebuild_registry s c (insert_id s c ext.id ext r.loaded) ≡ ok reg
      → IsConsistent s c (record {
        loaded = insert_id s c ext.id ext r.loaded;
        capability_registry = reg;
        events = events;
      })
  insert-IsConsistent ext r reg events v good = record {
    derived = good;
    distinct = insert_id-Distinct s c ext.id ext r.loaded v.distinct;
    keyed = insert_id-keyed s c ext r.loaded v.keyed;
  }

  Reloaded-IsConsistent :
      (gate : Gate s c) (dir : FilePath) (r : ExtensionRuntime s c)
      (x : Outcome RuntimeError (Unit {0}) × ExtensionRuntime s c)
      → Reloaded s c gate dir r x
      → IsConsistent s c r
      → IsConsistent s c x.1
  Reloaded-IsConsistent gate dir r _ (rejected e bad) v = v
  Reloaded-IsConsistent gate dir r _ (downgraded ext old loads found older) v = v
  Reloaded-IsConsistent gate dir r _ (unreadable ext e loads bad) v = v
  Reloaded-IsConsistent gate dir r _ (newly_loaded ext reg loads absent good) v =
      insert-IsConsistent ext r reg _ v good
  Reloaded-IsConsistent gate dir r _ (exchanged ext old reg loads found newer good) v =
      insert-IsConsistent ext r reg _ v good

  pub handle_added_or_modified-IsConsistent :
      (gate : Gate s c) (dir : FilePath) (r : ExtensionRuntime s c)
      → IsConsistent s c r
      → IsConsistent s c (handle_added_or_modified s c gate dir r).1
  handle_added_or_modified-IsConsistent gate dir r v =
      Reloaded-IsConsistent gate dir r _ (handle_added_or_modified-Reloaded s c gate dir r v) v

  announce_install-IsConsistent :
      (id : Text) (x : Outcome RuntimeError (Unit {0}) × ExtensionRuntime s c)
      → IsConsistent s c x.1
      → IsConsistent s c (announce_install s c id x).1
  unfolding announce_install emit
  announce_install-IsConsistent id (err e, r) v = v
  announce_install-IsConsistent id (ok _, r) v = record {
    derived = v.derived;
    distinct = v.distinct;
    keyed = v.keyed;
  }

  pub register_loaded_from_dir-IsConsistent :
      (gate : Gate s c) (dir : FilePath) (r : ExtensionRuntime s c)
      → IsConsistent s c r
      → IsConsistent s c (register_loaded_from_dir s c gate dir r).1
  unfolding register_loaded_from_dir
  register_loaded_from_dir-IsConsistent gate dir r v = elim (loaded_cases s c (gate dir)) [
    | inl (e, bad) ↦ rw (bad, register_loaded_from_dir) v
    | inr (ext, loads) ↦
        rw (loads, register_loaded_from_dir)
          (announce_install-IsConsistent ext.id _ (
            mutate_loaded-IsConsistent s c (λ map. (tt, insert_id s c ext.id ext map)) r v
              (insert_id-Distinct s c ext.id ext r.loaded v.distinct)
              (insert_id-keyed s c ext r.loaded v.keyed)))
  ]
