-- ===== src/Verify/Defs.antt =====
-- runtime_verify.rs, without the feature that skips the check. The disk stays as it is while a
-- directory is verified; `collect_into` recurses on the nesting that is left to it.
use greentic_designer_extens.Base.{
  ℕ, zero, suc, Bool, not, ◌||◌, Option, none, some, List, [], ◌∷◌, ◌++◌, Text, codes, text_eq, any,
  all, is_some, split_on, if◌then◌else◌,
}
use greentic_designer_extens.Base.Outcome.{Outcome, ok, err, ◌>>=◌}
use greentic_designer_extens.Runtime.Defs.{FilePath, path_eq}
use greentic_designer_extens.Verify.Sdk.{
  IoError, not_found, other_io, is_file, is_dir, Disk, ManifestEntry, Sdk,
}

abbrev pub max_pack_depth : ℕ
max_pack_depth = 32

-- `std::path::Component`, without the prefixes of Windows.
pub data Component : Type 0 where
  normal : Text → Component
  root_dir cur_dir parent_dir : Component

-- A segment after the first: an empty one and `.` are skipped.
abbrev pub later_components : List Text → List Component
later_components [] = []
later_components (p ∷ ps) =
    let rest = later_components ps in
    if text_eq p [] || text_eq p (codes ".")
    then rest
    else if text_eq p (codes "..")
    then parent_dir ∷ rest
    else normal p ∷ rest

-- `Path::components`: a leading slash is the root, a leading `.` is kept.
unfoldable pub components_of : List Text → List Component
components_of [] = []
components_of (p ∷ []) = if text_eq p (codes ".") then cur_dir ∷ [] else later_components (p ∷ [])
components_of (p ∷ q ∷ ps) =
    if text_eq p []
    then root_dir ∷ later_components (q ∷ ps)
    else if text_eq p (codes ".")
    then cur_dir ∷ later_components (q ∷ ps)
    else later_components (p ∷ q ∷ ps)

pub data VerifyError : Type 0 where
  io : IoError → VerifyError
  invalid_describe : VerifyError
  signature_invalid : (id : Text) → VerifyError
  too_deep : VerifyError

-- The normal components pushed on the directory, or none for any other component.
unfoldable pub join_normal : FilePath → List Component → Option FilePath
join_normal dir [] = some dir
join_normal dir (normal name ∷ cs) = join_normal (name ∷ dir) cs
join_normal dir (root_dir ∷ cs) = none
join_normal dir (cur_dir ∷ cs) = none
join_normal dir (parent_dir ∷ cs) = none

unfoldable pub pack_relative_path : FilePath → Text → Option FilePath
unfolding join_normal components_of split_on
pack_relative_path dir [] = none
pack_relative_path dir (b ∷ rel) = join_normal dir (components_of (split_on b'/' (b ∷ rel)))

abbrev pub from_io : {A : Type 0} → Outcome IoError A → Outcome VerifyError A
from_io (ok a) = ok a
from_io (err e) = err (io e)

abbrev pub Listed : Type 0
Listed = List (FilePath × Text)

-- `BTreeMap::get` and `insert`.
unfoldable pub get_path : FilePath → Listed → Option Text
get_path p [] = none
get_path p ((q, h) ∷ listed) = if path_eq q p then some h else get_path p listed

unfoldable pub insert_path : FilePath → Text → Listed → Listed
insert_path p h [] = (p, h) ∷ []
insert_path p h ((q, k) ∷ listed) =
    if path_eq q p then (q, h) ∷ listed else (q, k) ∷ insert_path p h listed

module _ (disk : Disk) where
  -- The loop of `collect_into` over one directory, with the call for a directory in it.
  unfoldable pub collect_entries :
      (FilePath → List FilePath → Outcome VerifyError (List FilePath))
      → List FilePath
      → List FilePath
      → Outcome VerifyError (List FilePath)
  collect_entries descend [] out = ok out
  collect_entries descend (path ∷ entries) out = elim (disk.symlink_metadata path) [
    | err e ↦ err (io e)
    | ok is_dir ↦ elim (descend path out) [
      | err e ↦ err e
      | ok out' ↦ collect_entries descend entries out'
    ]
    | ok _ ↦ collect_entries descend entries (out ++ (path ∷ []))
  ]

  unfoldable pub collect_into : ℕ → FilePath → List FilePath → Outcome VerifyError (List FilePath)
  unfolding collect_entries
  collect_into zero current out = err too_deep
  collect_into (suc levels) current out = elim (disk.read_dir current) [
    | err e ↦ err (io e)
    | ok entries ↦ collect_entries (collect_into levels) entries out
  ]

  -- Depths 0 to 32 are walked.
  unfoldable pub collect_pack_files : FilePath → Outcome VerifyError (List FilePath)
  unfolding collect_into
  collect_pack_files dir = collect_into (suc max_pack_depth) dir []

  module _ (sdk : Sdk) where
    open sdk use {
      Describe, TrustStore, parse_describe, id_of, public_key, is_self_consistent, binds_manifest,
      parse_manifest, sha256_hex, pin_or_verify, manifest_schema_v1, manifest_entry_name,
      describe_entry_name,
    }

    unfoldable pub read_describe : FilePath → Outcome VerifyError Describe
    read_describe dir = do
      raw ← from_io (disk.read (describe_entry_name ∷ dir))
      elim (parse_describe raw) [ none ↦ err invalid_describe | some d ↦ ok d ]

    -- One entry: a regular file below the directory, with the digest that the manifest records.
    unfoldable pub check_entry : Text → FilePath → ManifestEntry → Outcome VerifyError FilePath
    unfolding pack_relative_path
    check_entry id dir entry = elim (pack_relative_path dir entry.path) [
      | none ↦ err (signature_invalid id)
      | some path ↦ elim (disk.symlink_metadata path) [
        | err e ↦ err (signature_invalid id)
        | ok is_file ↦ elim (disk.read path) [
          | err e ↦ err (io e)
          | ok bytes ↦
              if text_eq (sha256_hex bytes) entry.sha256
              then ok path
              else err (signature_invalid id)
        ]
        | ok _ ↦ err (signature_invalid id)
      ]
    ]

    unfoldable pub check_entries :
        Text → FilePath → List ManifestEntry → Listed → Outcome VerifyError Listed
    unfolding check_entry insert_path
    check_entries id dir [] listed = ok listed
    check_entries id dir (entry ∷ entries) listed = elim (check_entry id dir entry) [
      | err e ↦ err e
      | ok path ↦ check_entries id dir entries (insert_path path entry.sha256 listed)
    ]

    unfoldable pub is_covered : FilePath → Listed → FilePath → Bool
    unfolding get_path
    is_covered dir listed present =
        any (λ n. path_eq (n ∷ dir) present) (manifest_entry_name ∷ describe_entry_name ∷ [])
        || is_some (get_path present listed)

    unfoldable pub check_coverage : Text → FilePath → Listed → Outcome VerifyError Listed
    unfolding collect_pack_files is_covered
    check_coverage id dir listed = do
      present ← collect_pack_files dir
      (if all (is_covered dir listed) present then ok listed else err (signature_invalid id))

    unfoldable pub verify_dir_manifest : FilePath → Describe → Outcome VerifyError Listed
    unfolding check_entries check_coverage
    verify_dir_manifest dir describe = elim (disk.read (manifest_entry_name ∷ dir)) [
      | err not_found ↦ err (signature_invalid (id_of describe))
      | err other_io ↦ err (io other_io)
      | ok raw ↦
          if not (binds_manifest describe raw)
          then err (signature_invalid (id_of describe))
          else elim (parse_manifest raw) [
            | none ↦ err (signature_invalid (id_of describe))
            | some manifest ↦
                if not (text_eq manifest.schema manifest_schema_v1)
                then err (signature_invalid (id_of describe))
                else do
                  listed ← check_entries (id_of describe) dir manifest.entries []
                  check_coverage (id_of describe) dir listed
          ]
    ]

    -- Step 3: the answer, and the trust store, which only a pin changes.
    unfoldable pub anchor :
        Describe → Text → Listed → TrustStore → Outcome VerifyError (Describe × Listed) × TrustStore
    anchor describe key ledger store = elim (pin_or_verify store (id_of describe) key) [
      | none ↦ (err (signature_invalid (id_of describe)), store)
      | some pinned ↦ (ok (describe, ledger), pinned)
    ]

    -- Steps 1 and 2, before the pin.
    unfoldable pub check_describe :
        FilePath → Describe → Outcome VerifyError (Describe × (Text × Listed))
    unfolding verify_dir_manifest
    check_describe dir describe =
        if not (is_self_consistent describe)
        then err (signature_invalid (id_of describe))
        else elim (public_key describe) [
          | none ↦ err (signature_invalid (id_of describe))
          | some key ↦ elim (verify_dir_manifest dir describe) [
            | err e ↦ err e
            | ok ledger ↦ ok (describe, (key, ledger))
          ]
        ]

    unfoldable pub verify_integrity : FilePath → Outcome VerifyError (Describe × (Text × Listed))
    unfolding read_describe check_describe
    verify_integrity dir = read_describe dir >>= check_describe dir

    unfoldable pub verify_dir_signature :
        FilePath → TrustStore → Outcome VerifyError (Describe × Listed) × TrustStore
    unfolding verify_integrity anchor
    verify_dir_signature dir store = elim (verify_integrity dir) [
      | err e ↦ (err e, store)
      | ok verified ↦ anchor verified.0 verified.1.0 verified.1.1 store
    ]

    -- `VerifiedLedger::read_verified`.
    unfoldable pub read_verified : Listed → FilePath → Option Text
    unfolding get_path
    read_verified ledger path = elim (disk.read path) [
      | err e ↦ none
      | ok bytes ↦ elim (get_path path ledger) [
        | none ↦ none
        | some expected ↦ if text_eq (sha256_hex bytes) expected then some bytes else none
      ]
    ]
