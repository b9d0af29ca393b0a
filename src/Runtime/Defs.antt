-- ===== src/Runtime/Defs.antt =====
-- runtime.rs and runtime_registry.rs. The lock makes the edits one after another, so an operation is
-- a function on the state; the events that were emitted stand in it, the latest first. A map is an
-- association list, whose order stands for the order that a `HashMap` happens to iterate in.
use Prim.Native.Nat.{Ordering}
use greentic_designer_extens.Base.{
  Bool, true, false, not, Option, none, some, List, [], ◌∷◌, Text, text_eq, keep, if◌then◌else◌,
}
use greentic_designer_extens.Base.Outcome.{Outcome, ok, err}
use greentic_designer_extens.Capability.Contract.{Semver, Contract}
use greentic_designer_extens.Capability.Registry
use greentic_designer_extens.Types.Defs.{DeployExtensionError, HostExtensionError}
use greentic_designer_extens.Capability.Registry.{CapabilityRegistry, OfferedBinding, add_offering}

-- A path as its components, the last one first; `[]` is the file system's root.
abbrev pub FilePath : Type 0
FilePath = List Text

-- `path == dir`.
abbrev pub path_eq : FilePath → FilePath → Bool
path_eq [] [] = true
path_eq [] (d ∷ q) = false
path_eq (c ∷ p) [] = false
path_eq (c ∷ p) (d ∷ q) = if text_eq c d then path_eq p q else false

-- error.rs. The reason of an invalid signature is left out; what another crate reports is its text,
-- and for an offered version that does not parse it is that version.
pub data RuntimeError : Type 0 where
  not_found : (ext_id : Text) → RuntimeError
  signature_invalid : (extension_id : Text) → RuntimeError
  wasmtime io json watcher : (message : Text) → RuntimeError
  deploy : (error : DeployExtensionError) → RuntimeError
  extension : (error : HostExtensionError) → RuntimeError

pub data RuntimeEvent : Type 0 where
  extension_installed : (id : Text) → RuntimeEvent
  extension_updated : (id prev_version : Text) → RuntimeEvent
  extension_removed : (id : Text) → RuntimeEvent
  state_file_changed : RuntimeEvent

-- What a reload did to the loaded map.
pub data Reload : Type 0 where
  installed : Reload
  updated : (prev_version : Text) → Reload
  refused_downgrade : (prev_version : Text) → Reload

module _ (s : Semver) (c : Contract) where
  open s use {parse_version, cmp}
  open c use {CapabilityId, ExtensionKind}

  pub record Offered : Type 0 where
    pub id : CapabilityId
    pub version : Text

  -- Of a loaded extension, what the registry and the watcher read.
  pub record LoadedExtension : Type 0 where
    pub id : Text
    pub kind : ExtensionKind
    pub version : Text
    pub offered : List Offered
    pub source_dir : FilePath
    pub component : c.Component

  abbrev pub Loaded : Type 0
  Loaded = List (Text × LoadedExtension)

  pub record ExtensionRuntime : Type 0 where
    pub loaded : Loaded
    pub capability_registry : CapabilityRegistry s c
    pub events : List RuntimeEvent

  unfoldable pub start : ExtensionRuntime
  start = record { loaded = []; capability_registry = Registry.new s c; events = [] }

  -- `HashMap::get`, `insert` and `remove` at an extension's id.
  unfoldable pub find_id {ℓ} : {V : Type ℓ} → Text → List (Text × V) → Option V
  find_id k [] = none
  find_id k ((j, v) ∷ m) = if text_eq j k then some v else find_id k m

  unfoldable pub insert_id {ℓ} : {V : Type ℓ} → Text → V → List (Text × V) → List (Text × V)
  insert_id k v [] = (k, v) ∷ []
  insert_id k v ((j, w) ∷ m) = if text_eq j k then (j, v) ∷ m else (j, w) ∷ insert_id k v m

  unfoldable pub without_id {ℓ} : {V : Type ℓ} → Text → List (Text × V) → List (Text × V)
  without_id k m = keep (λ e. not (text_eq e.0 k)) m

  -- The loops of `rebuild_registry`: over one extension's offers, then over the extensions.
  unfoldable pub offer_all :
      Text
      → ExtensionKind
      → List Offered
      → CapabilityRegistry s c
      → Outcome RuntimeError (CapabilityRegistry s c)
  offer_all ext kind [] r = ok r
  offer_all ext kind (offer ∷ offers) r = elim (parse_version offer.version) [
    | none ↦ err (wasmtime offer.version)
    | some v ↦ offer_all ext kind offers (
        add_offering s c
          (record {
            extension_id = ext;
            cap_id = offer.id;
            version = v;
            kind = kind;
            export_path = [];
          })
          r)
  ]

  unfoldable pub rebuild_from :
      Loaded → CapabilityRegistry s c → Outcome RuntimeError (CapabilityRegistry s c)
  unfolding offer_all
  rebuild_from [] r = ok r
  rebuild_from ((id, ext) ∷ loaded) r = elim (offer_all id ext.kind ext.offered r) [
    | err e ↦ err e
    | ok r' ↦ rebuild_from loaded r'
  ]

  unfoldable pub rebuild_registry : Loaded → Outcome RuntimeError (CapabilityRegistry s c)
  unfolding rebuild_from
  rebuild_registry loaded = rebuild_from loaded (Registry.new s c)

  -- Nothing is stored when the rebuild fails.
  unfoldable pub mutate_loaded :
      {T : Type 0}
      → (Loaded → T × Loaded)
      → ExtensionRuntime
      → Outcome RuntimeError T × ExtensionRuntime
  unfolding rebuild_registry
  mutate_loaded edit r =
      let (out, map) = edit r.loaded in
      elim (rebuild_registry map) [
        | err e ↦ (err e, r)
        | ok registry ↦ (ok out, record r { loaded = map; capability_registry = registry })
      ]

  unfoldable pub emit : RuntimeEvent → ExtensionRuntime → ExtensionRuntime
  emit e r = record r { events = e ∷ r.events }

  unfoldable pub lookup : ExtensionRuntime → Text → Outcome RuntimeError LoadedExtension
  unfolding find_id
  lookup r ext_id = elim (find_id ext_id r.loaded) [ none ↦ err (not_found ext_id) | some e ↦ ok e ]

  unfoldable pub is_downgrade : Text → Text → Bool
  is_downgrade current candidate = elim (parse_version current) [
    | none ↦ false
    | some v ↦ elim (parse_version candidate) [
      | none ↦ false
      | some w ↦ elim (cmp w v) [ Ordering.lt ↦ true | _ ↦ false ]
    ]
  ]

  -- What verification and loading of a directory answer: an error, or the extension.
  abbrev pub Gate : Type 0
  Gate = FilePath → Outcome RuntimeError LoadedExtension

  unfoldable pub announce_install :
      Text
      → Outcome RuntimeError (Unit {0}) × ExtensionRuntime
      → Outcome RuntimeError (Unit {0}) × ExtensionRuntime
  unfolding emit
  announce_install id (err e, r) = (err e, r)
  announce_install id (ok _, r) = (ok tt, emit (extension_installed id) r)

  unfoldable pub register_loaded_from_dir :
      Gate → FilePath → ExtensionRuntime → Outcome RuntimeError (Unit {0}) × ExtensionRuntime
  unfolding mutate_loaded insert_id announce_install
  register_loaded_from_dir gate dir r = elim (gate dir) [
    | err e ↦ (err e, r)
    | ok ext ↦ announce_install ext.id (mutate_loaded (λ map. (tt, insert_id ext.id ext map)) r)
  ]

  unfoldable pub reload_edit : LoadedExtension → Loaded → Reload × Loaded
  unfolding find_id insert_id is_downgrade
  reload_edit ext map = elim (find_id ext.id map) [
    | none ↦ (installed, insert_id ext.id ext map)
    | some prev ↦
        if is_downgrade prev.version ext.version
        then (refused_downgrade prev.version, map)
        else (updated prev.version, insert_id ext.id ext map)
  ]

  unfoldable pub announce :
      Text
      → Outcome RuntimeError Reload × ExtensionRuntime
      → Outcome RuntimeError (Unit {0}) × ExtensionRuntime
  unfolding emit
  announce id (err e, r) = (err e, r)
  announce id (ok installed, r) = (ok tt, emit (extension_installed id) r)
  announce id (ok (updated prev), r) = (ok tt, emit (extension_updated id prev) r)
  announce id (ok (refused_downgrade prev), r) = (err (signature_invalid id), r)

  unfoldable pub handle_added_or_modified :
      Gate → FilePath → ExtensionRuntime → Outcome RuntimeError (Unit {0}) × ExtensionRuntime
  unfolding mutate_loaded reload_edit announce
  handle_added_or_modified gate dir r = elim (gate dir) [
    | err e ↦ (err e, r)
    | ok ext ↦ announce ext.id (mutate_loaded (reload_edit ext) r)
  ]

  -- A failed rebuild leaves the extension loaded.
  unfoldable pub report_eviction :
      Outcome RuntimeError (Option Text) × ExtensionRuntime → ExtensionRuntime
  unfolding emit
  report_eviction (err e, r) = r
  report_eviction (ok none, r) = r
  report_eviction (ok (some id), r) = emit (extension_removed id) r

  unfoldable pub id_at : FilePath → Loaded → Option Text
  id_at dir [] = none
  id_at dir ((id, ext) ∷ m) = if path_eq ext.source_dir dir then some id else id_at dir m

  unfoldable pub removal_edit : FilePath → Loaded → Option Text × Loaded
  unfolding id_at without_id
  removal_edit dir map = elim (id_at dir map) [
    | none ↦ (none, map)
    | some id ↦ (some id, without_id id map)
  ]

  unfoldable pub handle_removal : FilePath → ExtensionRuntime → ExtensionRuntime
  unfolding mutate_loaded removal_edit report_eviction
  handle_removal dir r = report_eviction (mutate_loaded (removal_edit dir) r)

  unfoldable pub evict_edit : Text → Loaded → Option Text × Loaded
  unfolding find_id without_id
  evict_edit id map = elim (find_id id map) [
    | none ↦ (none, map)
    | some _ ↦ (some id, without_id id map)
  ]

  unfoldable pub evict : Text → ExtensionRuntime → ExtensionRuntime
  unfolding mutate_loaded evict_edit report_eviction
  evict id r = report_eviction (mutate_loaded (evict_edit id) r)
