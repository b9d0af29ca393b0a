-- ===== src/Watch/Runs.antt =====
-- The invariant over any run of the operations that change the runtime's state.
use greentic_designer_extens.Base.{◌≡◌, ◌↔◌, Memᴰ}
use greentic_designer_extens.Capability.Contract.{Semver, Contract}
use greentic_designer_extens.Capability.Registry.{OfferedBinding, offers_of}
use greentic_designer_extens.Runtime.Defs.{
  FilePath, ExtensionRuntime, Gate, start, register_loaded_from_dir, handle_removal,
}
use greentic_designer_extens.Runtime.Rebuild.{Advertised}
use greentic_designer_extens.Runtime.Advertised.{rebuild_registry_iff}
use greentic_designer_extens.Runtime.Invariant.{IsConsistent, start-IsConsistent}
use greentic_designer_extens.Runtime.Evictions.{handle_removal-IsConsistent}
use greentic_designer_extens.Runtime.Upkeep.{register_loaded_from_dir-IsConsistent}
use greentic_designer_extens.Watch.Defs.{FsEvent, FileSystem, DiscoveryPaths, handle_fs_event}
use greentic_designer_extens.Watch.Events.{handle_fs_event-IsConsistent}

module _ (s : Semver) (c : Contract) where
  -- The states that a runtime comes into. The gate's answers and the file system may differ each time.
  pub data Reachable : ExtensionRuntime s c → Type 0 where
    started : Reachable (start s c)
    registered :
        (gate : Gate s c) (dir : FilePath) (r : ExtensionRuntime s c)
        → Reachable r
        → Reachable (register_loaded_from_dir s c gate dir r).1
    dropped :
        (dir : FilePath) (r : ExtensionRuntime s c)
        → Reachable r
        → Reachable (handle_removal s c dir r)
    watched :
        (gate : Gate s c) (fs : FileSystem) (paths : DiscoveryPaths) (event : FsEvent)
        (r : ExtensionRuntime s c)
        → Reachable r
        → Reachable (handle_fs_event s c gate fs paths event r).1

  -- In every reachable state the registry is the one that the loaded map derives, no id is loaded
  -- twice, and each extension is stored at its own id.
  pub Reachable-IsConsistent : (r : ExtensionRuntime s c) → Reachable r → IsConsistent s c r
  Reachable-IsConsistent _ started = start-IsConsistent s c
  Reachable-IsConsistent _ (registered gate dir r h) =
      register_loaded_from_dir-IsConsistent s c gate dir r (Reachable-IsConsistent r h)
  Reachable-IsConsistent _ (dropped dir r h) =
      handle_removal-IsConsistent s c dir r (Reachable-IsConsistent r h)
  Reachable-IsConsistent _ (watched gate fs paths event r h) =
      handle_fs_event-IsConsistent s c gate fs paths r event (Reachable-IsConsistent r h)

  -- In every reachable state the registry offers a binding for a capability exactly when the binding is
  -- for that capability and stands for an offer of an extension that is loaded, with its parsed version.
  pub Reachable-offers :
      (r : ExtensionRuntime s c)
      → Reachable r
      → (o : OfferedBinding s c) (k : c.CapabilityId)
      → Memᴰ o (offers_of s c r.capability_registry k)
        ↔ ((o.cap_id ≡ k) × Advertised s c r.loaded o)
  Reachable-offers r h o k =
      rebuild_registry_iff s c r.loaded r.capability_registry (Reachable-IsConsistent r h).derived o
        k
