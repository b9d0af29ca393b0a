-- ===== src/Load/Registered.antt =====
-- Every extension that is loaded came through the load gate, over any run of the runtime.
use greentic_designer_extens.Base.{◌≡◌, refl, sym, ap, subst, Bool, Memᴰ, Text, mem_of_All}
use greentic_designer_extens.Base.Outcome.{Outcome, ok, err}
use greentic_designer_extens.Capability.Contract.{Semver, Contract}
use greentic_designer_extens.Runtime.Defs.{
  FilePath, RuntimeError, LoadedExtension, ExtensionRuntime, start, register_loaded_from_dir,
  handle_removal,
}
use greentic_designer_extens.Watch.Defs.{FsEvent, FileSystem, DiscoveryPaths, handle_fs_event}
use greentic_designer_extens.Watch.Runs.{Reachable, Reachable-IsConsistent}
use greentic_designer_extens.Verify.Sdk.{Disk, Sdk}
use greentic_designer_extens.Load.Defs.{Engine, Messages, load_dir, gate_of}
use greentic_designer_extens.Load.Kept.{
  Every, Answers, register_loaded_from_dir-Every, handle_removal-Every, handle_fs_event-Every,
}
use greentic_designer_extens.Load.Vouched.{IsLoaded, load_dir-IsLoaded}

module _ (s : Semver) (c : Contract) (sdk : Sdk) (engine : Engine s c sdk)
    (texts : Messages s c sdk engine) where
  -- The states that a runtime comes into whose gate is the load of a directory. The disks, and the trust
  -- store that a load starts from, may differ each time.
  pub data Running : ExtensionRuntime s c → Type 0 where
    started : Running (start s c)
    registered :
        (disk : Disk) (exists : FilePath → Bool) (later : Disk) (store : sdk.TrustStore)
        (dir : FilePath) (r : ExtensionRuntime s c)
        → Running r
        → Running
            (register_loaded_from_dir s c
              (gate_of s c sdk engine texts disk exists later store)
              dir
              r).1
    dropped :
        (dir : FilePath) (r : ExtensionRuntime s c) → Running r → Running (handle_removal s c dir r)
    watched :
        (disk : Disk) (exists : FilePath → Bool) (later : Disk) (store : sdk.TrustStore)
        (fs : FileSystem) (paths : DiscoveryPaths) (event : FsEvent) (r : ExtensionRuntime s c)
        → Running r
        → Running
            (handle_fs_event s c
              (gate_of s c sdk engine texts disk exists later store)
              fs
              paths
              event
              r).1

  -- A load of the extension, as it was verified and compiled.
  pub record Attested (ext : LoadedExtension s c) : Type 0 where
    pub disk : Disk
    pub store : sdk.TrustStore
    pub store' : sdk.TrustStore
    pub loads : IsLoaded s c sdk engine disk ext.source_dir store store' ext

  Running-Reachable : (r : ExtensionRuntime s c) → Running r → Reachable s c r
  Running-Reachable _ started = Reachable.started
  Running-Reachable _ (registered disk exists later store dir r h) =
      Reachable.registered _ dir r (Running-Reachable r h)
  Running-Reachable _ (dropped dir r h) = Reachable.dropped dir r (Running-Reachable r h)
  Running-Reachable _ (watched disk exists later store fs paths event r h) =
      Reachable.watched _ fs paths event r (Running-Reachable r h)

  answer_Attested :
      (disk : Disk) (dir : FilePath) (store : sdk.TrustStore)
      (z : Outcome RuntimeError (LoadedExtension s c) × sdk.TrustStore)
      → ((x : LoadedExtension s c) → z ≡ (ok x, z.1) → IsLoaded s c sdk engine disk dir store z.1 x)
      → (ext : LoadedExtension s c) → z.0 ≡ ok ext
      → Attested ext
  answer_Attested disk dir store (err e, st) loaded ext h = cc
  answer_Attested disk dir store (ok l, st) loaded ext h =
      let loads = loaded l refl in
      let same : l ≡ ext = cc (h) in
      let here : l.source_dir ≡ dir = ap (λ e. e.source_dir) loads.extension in
      subst Attested same (record {
        disk = disk;
        store = store;
        store' = st;
        loads = subst (λ d. IsLoaded s c sdk engine disk d store st l) (sym here) loads;
      })

  gate_of-Attested :
      (disk : Disk) (exists : FilePath → Bool) (later : Disk) (store : sdk.TrustStore)
      → Answers s c Attested (gate_of s c sdk engine texts disk exists later store)
  unfolding gate_of
  gate_of-Attested disk exists later store dir ext h =
      answer_Attested disk dir store (load_dir s c sdk engine texts disk exists later dir store)
        (λ x e. load_dir-IsLoaded s c sdk engine texts disk exists later dir store _ x e) ext h

  Running-Every : (r : ExtensionRuntime s c) → Running r → Every s c Attested r
  unfolding start
  Running-Every _ started = tt
  Running-Every _ (registered disk exists later store dir r h) =
      register_loaded_from_dir-Every s c Attested _ dir r (gate_of-Attested disk exists later store)
        (Running-Every r h)
  Running-Every _ (dropped dir r h) = handle_removal-Every s c Attested dir r (Running-Every r h)
  Running-Every _ (watched disk exists later store fs paths event r h) =
      handle_fs_event-Every s c Attested _ fs paths event r
        (gate_of-Attested disk exists later store)
        (Reachable-IsConsistent s c r (Running-Reachable r h)) (Running-Every r h)

  -- In every state of a running runtime, each extension that is loaded stands at the id of its own
  -- description, which passed the load gate at its directory, and was compiled from a file there with the
  -- digest that the bound manifest has.
  pub Running-Attested :
      (r : ExtensionRuntime s c)
      → Running r
      → (id : Text) (ext : LoadedExtension s c) → Memᴰ (id, ext) r.loaded
      → (id ≡ ext.id) × Attested ext
  Running-Attested r h id ext i =
      let v = Reachable-IsConsistent s c r (Running-Reachable r h) in
      (
        mem_of_All _ (id, ext) r.loaded v.keyed i,
        mem_of_All _ (id, ext) r.loaded (Running-Every r h) i,
      )
