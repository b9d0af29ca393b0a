-- ===== src/Load/Defs.antt =====
-- loaded.rs, and the load of a directory in runtime_registry.rs. The component is compiled from the
-- disk as it is then, which may differ from the one that was verified. What is reported to a log is
-- left out.
use greentic_designer_extens.Base.{
  Bool, Option, none, some, List, [], ◌∷◌, Text, codes, if◌then◌else◌,
}
use greentic_designer_extens.Base.Outcome.{Outcome, ok, err}
use greentic_designer_extens.Capability.Contract.{Semver, Contract}
use greentic_designer_extens.Runtime.Defs.{FilePath, RuntimeError, LoadedExtension, Offered, Gate}
use greentic_designer_extens.Verify.Sdk.{IoError, Disk, Sdk}
use greentic_designer_extens.Verify.Defs.{
  VerifyError, Listed, pack_relative_path, verify_dir_signature, read_verified,
}

abbrev pub design_wasm_name : Text
design_wasm_name = codes "extension.wasm"

pub data LoadError : Type 0 where
  no_components many_components no_gtpack bad_path not_verified not_compiled : LoadError

module _ (s : Semver) (c : Contract) (sdk : Sdk) where
  -- What is read of a description, and the compiler of wasmtime. `components` has the `gtpack.file`
  -- of each entry of `runtime.components`.
  pub record Engine : Type 1 where
    pub from_binary : Text → Option c.Component
    pub kind : sdk.Describe → c.ExtensionKind
    pub version : sdk.Describe → Text
    pub offered : sdk.Describe → List (Offered s c)
    pub components : sdk.Describe → List (Option Text)

  module _ (engine : Engine) where
    -- The only component's file, below the directory.
    unfoldable pub declared_path : FilePath → List (Option Text) → Outcome LoadError FilePath
    unfolding pack_relative_path
    declared_path source_dir [] = err no_components
    declared_path source_dir (gtpack ∷ other ∷ rest) = err many_components
    declared_path source_dir (none ∷ []) = err no_gtpack
    declared_path source_dir (some file ∷ []) = elim (pack_relative_path source_dir file) [
      | none ↦ err bad_path
      | some path ↦ ok path
    ]

    -- `exists` is that of `std::path`.
    unfoldable pub wasm_component_path :
        (FilePath → Bool) → sdk.Describe → FilePath → Outcome LoadError FilePath
    unfolding declared_path
    wasm_component_path exists describe source_dir =
        if exists (design_wasm_name ∷ source_dir)
        then ok (design_wasm_name ∷ source_dir)
        else declared_path source_dir (engine.components describe)

    abbrev pub loaded_of : sdk.Describe → FilePath → c.Component → LoadedExtension s c
    loaded_of describe source_dir component = record {
      id = sdk.id_of describe;
      kind = engine.kind describe;
      version = engine.version describe;
      offered = engine.offered describe;
      source_dir = source_dir;
      component = component;
    }

    unfoldable pub from_verified :
        (FilePath → Bool)
        → Disk
        → FilePath
        → sdk.Describe
        → Listed
        → Outcome LoadError (LoadedExtension s c)
    unfolding wasm_component_path read_verified
    from_verified exists disk source_dir describe ledger =
        elim (wasm_component_path exists describe source_dir) [
          | err e ↦ err e
          | ok wasm_path ↦ elim (read_verified disk sdk ledger wasm_path) [
            | none ↦ err not_verified
            | some wasm ↦ elim (engine.from_binary wasm) [
              | none ↦ err not_compiled
              | some component ↦ ok (loaded_of describe source_dir component)
            ]
          ]
        ]

    -- The messages of the errors of the two steps. A description that does not parse is a JSON error, and
    -- one against the schema is not; which of them `invalid_describe` stands for is `describe_error`.
    pub record Messages : Type 0 where
      pub io_text : IoError → Text
      pub too_deep_text : Text
      pub describe_error : RuntimeError
      pub load_text : LoadError → Text

    unfoldable pub verify_error : Messages → VerifyError → RuntimeError
    verify_error texts (VerifyError.io e) = RuntimeError.io (texts.io_text e)
    verify_error texts VerifyError.invalid_describe = texts.describe_error
    verify_error texts (VerifyError.signature_invalid id) = RuntimeError.signature_invalid id
    verify_error texts VerifyError.too_deep = RuntimeError.io texts.too_deep_text

    -- `From<anyhow::Error>`.
    abbrev pub load_error :
        Messages
        → Outcome LoadError (LoadedExtension s c)
        → Outcome RuntimeError (LoadedExtension s c)
    load_error texts (ok ext) = ok ext
    load_error texts (err e) = err (RuntimeError.wasmtime (texts.load_text e))

    -- What follows the answer of the load gate, with the trust store that it leaves.
    unfoldable pub load_verified :
        Messages
        → (FilePath → Bool)
        → Disk
        → FilePath
        → Outcome VerifyError (sdk.Describe × Listed) × sdk.TrustStore
        → Outcome RuntimeError (LoadedExtension s c) × sdk.TrustStore
    unfolding from_verified verify_error
    load_verified texts exists later dir (err e, store') = (err (verify_error texts e), store')
    load_verified texts exists later dir (ok v, store') =
        (load_error texts (from_verified exists later dir v.0 v.1), store')

    -- Verification on the one disk, then the load from the other.
    unfoldable pub load_dir :
        Messages
        → Disk
        → (FilePath → Bool)
        → Disk
        → FilePath
        → sdk.TrustStore
        → Outcome RuntimeError (LoadedExtension s c) × sdk.TrustStore
    unfolding verify_dir_signature load_verified
    load_dir texts disk exists later dir store =
        load_verified texts exists later dir (verify_dir_signature disk sdk dir store)

    -- The gate of the runtime store.
    unfoldable pub gate_of : Messages → Disk → (FilePath → Bool) → Disk → sdk.TrustStore → Gate s c
    unfolding load_dir
    gate_of texts disk exists later store dir = (load_dir texts disk exists later dir store).0
