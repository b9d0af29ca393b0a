-- ===== src/Load/Vouched.antt =====
-- What holds of an extension that is loaded.
use greentic_designer_extens.Base.{
  ◌≡◌, refl, sym, ◌∙◌, ap, subst, ◌⊎◌, inl, inr, Bool, Option, none, some, List, [], ◌∷◌, Text,
  any_of_mem, ◌==◌, Bool-cases, Option-cases,
}
use greentic_designer_extens.Base.Outcome.{Outcome, Outcome-cases, ok}
use greentic_designer_extens.Capability.Contract.{Semver, Contract}
use greentic_designer_extens.Runtime.Defs.{FilePath, LoadedExtension}
use greentic_designer_extens.Verify.Sdk.{Disk, Sdk}
use greentic_designer_extens.Verify.Defs.{VerifyError, Listed, pack_relative_path, read_verified}
use greentic_designer_extens.Verify.Ledger.{Vouched}
use greentic_designer_extens.Verify.Signature.{
  IsVerified, Gated, refused, passed, verify_dir_signature-Gated, read_verified-hash,
}
use greentic_designer_extens.Verify.Paths.{IsName, IsUnder, pack_relative_path-IsUnder}
use greentic_designer_extens.Load.Defs.{
  design_wasm_name, Engine, Messages, declared_path, wasm_component_path, load_verified, load_error,
  loaded_of, from_verified, load_dir,
}

design_IsName : IsName design_wasm_name
design_IsName = record {
  inhabited = λ e. cc;
  no_dot = λ e. cc;
  no_dots = λ e. cc;
  no_slash = λ i. cc (any_of_mem (λ x. x == b'/') b'/' design_wasm_name i refl);
}

module _ (s : Semver) (c : Contract) (sdk : Sdk) (engine : Engine s c sdk) where
  -- The component's path: the file of the design side, or the file of the only component.
  abbrev pub Chosen : sdk.Describe → FilePath → FilePath → Type 0
  Chosen describe dir path =
      (path ≡ design_wasm_name ∷ dir)
      ⊎ ((file : Text) × (engine.components describe ≡ some file ∷ [])
          × (pack_relative_path dir file ≡ some path))

  Chosen-IsUnder :
      (describe : sdk.Describe) (dir path : FilePath) → Chosen describe dir path → IsUnder dir path
  Chosen-IsUnder describe dir path (inl e) = record {
    names = design_wasm_name ∷ [];
    inhabited = λ h. cc;
    split = e;
    named = (design_IsName, tt);
  }
  Chosen-IsUnder describe dir path (inr (file, e, found)) =
      pack_relative_path-IsUnder dir file path found

  declared_Chosen :
      (describe : sdk.Describe) (dir path : FilePath) (gs : List (Option Text))
      → engine.components describe ≡ gs
      → declared_path s c sdk engine dir gs ≡ ok path
      → Chosen describe dir path
  unfolding declared_path
  declared_Chosen describe dir path [] e h = cc
  declared_Chosen describe dir path (none ∷ []) e h = cc
  declared_Chosen describe dir path (g ∷ f ∷ gs) e h = cc
  declared_Chosen describe dir path (some file ∷ []) e h =
      elim (Option-cases (pack_relative_path dir file)) [
        | inl bad ↦ absurd (cc (rw (bad, declared_path) at h))
        | inr (p, good) ↦
            let same : p ≡ path = cc (rw (good, declared_path) at h) in
            inr (file, e, good ∙ ap some same)
      ]

  component_Chosen :
      (exists : FilePath → Bool) (describe : sdk.Describe) (dir path : FilePath)
      → wasm_component_path s c sdk engine exists describe dir ≡ ok path
      → Chosen describe dir path
  unfolding wasm_component_path
  component_Chosen exists describe dir path h =
      elim (Bool-cases (exists (design_wasm_name ∷ dir))) [
        | inl e ↦
            let same : design_wasm_name ∷ dir ≡ path = cc (rw (e, wasm_component_path) at h) in
            inl (sym same)
        | inr e ↦
            declared_Chosen describe dir path (engine.components describe) refl
              (rw (e, wasm_component_path) at h)
      ]

  -- The file that a loaded extension was compiled from, and what the load gate said of it.
  pub record IsLoaded (disk : Disk) (dir : FilePath) (store store' : sdk.TrustStore)
      (x : LoadedExtension s c) : Type 0 where
    pub describe : sdk.Describe
    pub ledger : Listed
    pub verified : IsVerified disk sdk dir store describe ledger store'
    pub extension : x ≡ loaded_of s c sdk engine describe dir x.component
    pub path : FilePath
    pub chosen : Chosen describe dir path
    pub under : IsUnder dir path
    pub wasm : Text
    pub compiled : engine.from_binary wasm ≡ some x.component
    pub vouched : Vouched disk sdk dir verified.intact.manifest.entries path (sdk.sha256_hex wasm)

  -- The file and its bytes, as they were read.
  record Compiles (later : Disk) (dir : FilePath) (describe : sdk.Describe) (ledger : Listed)
      (x : LoadedExtension s c) : Type 0 where
    extension : loaded_of s c sdk engine describe dir x.component ≡ x
    path : FilePath
    chosen : Chosen describe dir path
    wasm : Text
    reads : read_verified later sdk ledger path ≡ some wasm
    compiled : engine.from_binary wasm ≡ some x.component

  from_verified-Compiles :
      (exists : FilePath → Bool) (later : Disk) (dir : FilePath) (describe : sdk.Describe)
      (ledger : Listed) (x : LoadedExtension s c)
      → from_verified s c sdk engine exists later dir describe ledger ≡ ok x
      → Compiles later dir describe ledger x
  unfolding from_verified
  from_verified-Compiles exists later dir describe ledger x h =
      elim (Outcome-cases (wasm_component_path s c sdk engine exists describe dir)) [
        | inl (e, bad) ↦ absurd (cc (rw (bad, from_verified) at h))
        | inr (path, good) ↦ elim (Option-cases (read_verified later sdk ledger path)) [
          | inl bad ↦ absurd (cc (rw (good, from_verified, bad) at h))
          | inr (wasm, reads) ↦ elim (Option-cases (engine.from_binary wasm)) [
            | inl bad ↦ absurd (cc (rw (good, from_verified, reads, bad) at h))
            | inr (component, compiles) ↦
                let same : ◌≡◌ {A = LoadedExtension s c}
                    (loaded_of s c sdk engine describe dir component) x =
                  cc (rw (good, from_verified, reads, compiles) at h) in
                record {
                  extension =
                      ap (λ y. loaded_of s c sdk engine describe dir y.component) (sym same) ∙ same;
                  path = path;
                  chosen = component_Chosen exists describe dir path good;
                  wasm = wasm;
                  reads = reads;
                  compiled = compiles ∙ ap (λ y. some y.component) same;
                }
          ]
        ]
      ]

  load_verified-IsLoaded :
      (texts : Messages s c sdk engine) (disk : Disk) (exists : FilePath → Bool) (later : Disk)
      (dir : FilePath) (store store' : sdk.TrustStore) (x : LoadedExtension s c)
      (y : Outcome VerifyError (sdk.Describe × Listed) × sdk.TrustStore)
      → Gated disk sdk dir store y
      → load_verified s c sdk engine texts exists later dir y ≡ (ok x, store')
      → IsLoaded disk dir store store' x
  unfolding load_verified
  load_verified-IsLoaded texts disk exists later dir store store' x _ (refused e) h = cc
  load_verified-IsLoaded texts disk exists later dir store store' x _ (passed d l st v) h =
      elim (Outcome-cases (from_verified s c sdk engine exists later dir d l)) [
        | inl (e, bad) ↦ absurd (cc (rw (bad, load_error) at h))
        | inr (y, good) ↦
            let same : y ≡ x = cc (rw (good, load_error) at h) in
            let m = from_verified-Compiles exists later dir d l x (good ∙ ap ok same) in
            let pinned : st ≡ store' = ap (λ z. z.1) h in
            subst (λ t. IsLoaded disk dir store t x) pinned
              (record {
                describe = d;
                ledger = l;
                verified = v;
                extension = sym m.extension;
                path = m.path;
                chosen = m.chosen;
                under = Chosen-IsUnder d dir m.path m.chosen;
                wasm = m.wasm;
                compiled = m.compiled;
                vouched =
                    v.intact.recorded m.path _
                      (read_verified-hash disk sdk later l m.path m.wasm m.reads);
              })
      ]

  -- If a directory loads, then it passed the load gate, the extension is the one that its verified
  -- description names, and what was compiled is the file `extension.wasm` or that of the only declared
  -- component, below the directory, with the digest that the bound manifest has for that file, however
  -- the disk changed between verification and load.
  pub load_dir-IsLoaded :
      (texts : Messages s c sdk engine) (disk : Disk) (exists : FilePath → Bool) (later : Disk)
      (dir : FilePath) (store store' : sdk.TrustStore) (x : LoadedExtension s c)
      → load_dir s c sdk engine texts disk exists later dir store ≡ (ok x, store')
      → IsLoaded disk dir store store' x
  unfolding load_dir
  load_dir-IsLoaded texts disk exists later dir store store' x h =
      load_verified-IsLoaded texts disk exists later dir store store' x _
        (verify_dir_signature-Gated disk sdk dir store) h
