-- ===== src/Verify/Ledger.antt =====
-- What a verified ledger says of the directory.
use greentic_designer_extens.Base.{
  ◌≡◌, refl, sym, subst, ◌⊎◌, inl, inr, Bool, true, some, List, [], ◌∷◌, Memᴰ, Text, text_eq,
  text_eq_iff, all, arith, Bool-cases, Option-cases, if◌then◌else◌,
}
use greentic_designer_extens.Base.Outcome.{Outcome-cases, ok}
use greentic_designer_extens.Runtime.Defs.{FilePath, path_eq}
use greentic_designer_extens.Watch.Locate.{path_eq_iff}
use greentic_designer_extens.Verify.Sdk.{is_file, is_dir, is_other, Disk, ManifestEntry, Sdk}
use greentic_designer_extens.Verify.Defs.{
  Listed, get_path, insert_path, pack_relative_path, collect_pack_files, check_entry, check_entries,
  is_covered, check_coverage,
}
use greentic_designer_extens.Verify.Walk.{Reached, collect_pack_files_complete}

get_path-insert_path :
    (p q : FilePath) (h : Text) (m : Listed)
    → get_path q (insert_path p h m) ≡ (if path_eq p q then some h else get_path q m)
unfolding get_path insert_path
get_path-insert_path p q h [] = refl
get_path-insert_path p q h ((i, k) ∷ m) =
    ground (arith, path_eq_iff p q, path_eq_iff i p, path_eq_iff i q, get_path-insert_path p q h m)

all_of {ℓ} :
    {A : Type ℓ} (p : A → Bool) (x : A) (xs : List A) → all p xs ≡ true → Memᴰ x xs → p x ≡ true
all_of p x [] h i = elim i [ ]
all_of p x (y ∷ xs) h (Memᴰ.head same) = rw same (ground arith)
all_of p x (y ∷ xs) h (Memᴰ.tail i) = all_of p x xs (ground arith) i

module _ (disk : Disk) (sdk : Sdk) where
  open sdk use {
    Describe, id_of, binds_manifest, parse_manifest, sha256_hex, manifest_schema_v1,
    manifest_entry_name, describe_entry_name,
  }

  -- An entry of the manifest stands for the file: a regular one, below the directory, whose bytes have
  -- the digest.
  pub record Vouched (dir : FilePath) (entries : List ManifestEntry) (p : FilePath) (digest : Text)
      : Type 0 where
    pub entry : ManifestEntry
    pub listed : Memᴰ entry entries
    pub plain : pack_relative_path dir entry.path ≡ some p
    pub regular : disk.symlink_metadata p ≡ ok is_file
    pub bytes : Text
    pub reads : disk.read p ≡ ok bytes
    pub hashes : sha256_hex bytes ≡ digest

  -- One entry that passes.
  check_entry-Vouched :
      (id : Text) (dir : FilePath) (entry : ManifestEntry) (entries : List ManifestEntry)
      (p : FilePath)
      → Memᴰ entry entries
      → check_entry disk sdk id dir entry ≡ ok p
      → Vouched dir entries p entry.sha256
  unfolding check_entry
  check_entry-Vouched id dir entry entries p i h =
      elim (Option-cases (pack_relative_path dir entry.path)) [
        | inl bad ↦ absurd (cc (rw (bad, check_entry) at h))
        | inr (q, plain) ↦ elim (Outcome-cases (disk.symlink_metadata q)) [
          | inl (e, bad) ↦ absurd (cc (rw (plain, check_entry, bad) at h))
          | inr (is_dir, m) ↦ absurd (cc (rw (plain, check_entry, m) at h))
          | inr (is_other, m) ↦ absurd (cc (rw (plain, check_entry, m) at h))
          | inr (is_file, m) ↦ elim (Outcome-cases (disk.read q)) [
            | inl (e, bad) ↦ absurd (cc (rw (plain, check_entry, m, bad) at h))
            | inr (bytes, reads) ↦ elim (Bool-cases (text_eq (sha256_hex bytes) entry.sha256)) [
              | inr bad ↦ absurd (cc (rw (plain, check_entry, m, reads, bad) at h))
              | inl good ↦
                  let same : q ≡ p = cc (rw (plain, check_entry, m, reads, good) at h) in
                  record {
                    entry = entry;
                    listed = i;
                    plain = rw (← same) plain;
                    regular = rw (← same) m;
                    bytes = bytes;
                    reads = rw (← same) reads;
                    hashes = (text_eq_iff _ _).0 good;
                  }
            ]
          ]
        ]
      ]

  -- Every line of the ledger is vouched for.
  abbrev pub Recorded : FilePath → List ManifestEntry → Listed → Type 0
  Recorded dir entries ledger =
      (p : FilePath) (digest : Text)
      → get_path p ledger ≡ some digest
      → Vouched dir entries p digest

  insert-Recorded :
      (dir : FilePath) (all_entries : List ManifestEntry) (p : FilePath) (digest : Text)
      (m : Listed)
      → Vouched dir all_entries p digest
      → Recorded dir all_entries m
      → Recorded dir all_entries (insert_path p digest m)
  insert-Recorded dir all_entries p digest m v rec q d h = elim (Bool-cases (path_eq p q)) [
    | inl same ↦
        let here : digest ≡ d = cc (rw (get_path-insert_path p q digest m, same) at h) in
        subst (λ x. Vouched dir all_entries x d) ((path_eq_iff p q).0 same)
          (subst (λ x. Vouched dir all_entries p x) here v)
    | inr other ↦ rec q d (rw (get_path-insert_path p q digest m, other) at h)
  ]

  pub check_entries-Recorded :
      (id : Text) (dir : FilePath) (all_entries entries : List ManifestEntry)
      (listed ledger : Listed)
      → ((e : ManifestEntry) → Memᴰ e entries → Memᴰ e all_entries)
      → Recorded dir all_entries listed
      → check_entries disk sdk id dir entries listed ≡ ok ledger
      → Recorded dir all_entries ledger
  unfolding check_entries
  check_entries-Recorded id dir all_entries [] listed ledger sub rec h =
      subst (λ m. Recorded dir all_entries m) (cc (h)) rec
  check_entries-Recorded id dir all_entries (entry ∷ entries) listed ledger sub rec h =
      elim (Outcome-cases (check_entry disk sdk id dir entry)) [
        | inl (e, bad) ↦ absurd (cc (rw (bad, check_entries) at h))
        | inr (p, good) ↦
            let v =
              check_entry-Vouched id dir entry all_entries p (sub entry (Memᴰ.head refl)) good in
            check_entries-Recorded id dir all_entries entries (insert_path p entry.sha256 listed)
              ledger (λ e i. sub e (Memᴰ.tail i))
              (insert-Recorded dir all_entries p entry.sha256 listed v rec)
              (rw (good, check_entries) at h)
      ]

  -- Every entry of the manifest stands for a file.
  pub check_entries_present :
      (id : Text) (dir : FilePath) (all_entries entries : List ManifestEntry)
      (listed ledger : Listed)
      → ((e : ManifestEntry) → Memᴰ e entries → Memᴰ e all_entries)
      → check_entries disk sdk id dir entries listed ≡ ok ledger
      → (e : ManifestEntry) → Memᴰ e entries
      → (p : FilePath) × Vouched dir all_entries p e.sha256
  unfolding check_entries
  check_entries_present id dir all_entries [] listed ledger sub h e i = elim i [ ]
  check_entries_present id dir all_entries (entry ∷ entries) listed ledger sub h e i =
      elim (Outcome-cases (check_entry disk sdk id dir entry)) [
        | inl (_, bad) ↦ absurd (cc (rw (bad, check_entries) at h))
        | inr (p, good) ↦ elim i [
          | Memᴰ.head same ↦ (
            p,
            subst (λ x. Vouched dir all_entries p x.sha256) (sym same)
                (check_entry-Vouched id dir entry all_entries p (sub entry (Memᴰ.head refl)) good),
          )
          | Memᴰ.tail j ↦
              check_entries_present id dir all_entries entries (insert_path p entry.sha256 listed)
                ledger (λ x k. sub x (Memᴰ.tail k)) (rw (good, check_entries) at h) e j
        ]
      ]

  -- Every file below the directory is the manifest, the description, or in the ledger.
  abbrev pub Covered : FilePath → Listed → Type 0
  Covered dir ledger =
      (p : FilePath)
      → Reached disk p dir
      → (p ≡ manifest_entry_name ∷ dir)
        ⊎ ((p ≡ describe_entry_name ∷ dir) ⊎ ((digest : Text) × (get_path p ledger ≡ some digest)))

  covered_cases :
      (dir p : FilePath) (ledger : Listed)
      → is_covered disk sdk dir ledger p ≡ true
      → (p ≡ manifest_entry_name ∷ dir)
        ⊎ ((p ≡ describe_entry_name ∷ dir) ⊎ ((digest : Text) × (get_path p ledger ≡ some digest)))
  unfolding is_covered
  covered_cases dir p ledger h = elim (Bool-cases (path_eq (manifest_entry_name ∷ dir) p)) [
    | inl same ↦ inl (sym ((path_eq_iff (manifest_entry_name ∷ dir) p).0 same))
    | inr other ↦ elim (Bool-cases (path_eq (describe_entry_name ∷ dir) p)) [
      | inl same ↦ inr (inl (sym ((path_eq_iff (describe_entry_name ∷ dir) p).0 same)))
      | inr neither ↦ elim (Option-cases (get_path p ledger)) [
        | inl missing ↦ absurd (cc (rw (other, neither, missing) at h))
        | inr found ↦ inr (inr found)
      ]
    ]
  ]

  pub check_coverage-Covered :
      (id : Text) (dir : FilePath) (listed ledger : Listed)
      → check_coverage disk sdk id dir listed ≡ ok ledger
      → (listed ≡ ledger) × Covered dir listed
  unfolding check_coverage
  check_coverage-Covered id dir listed ledger h =
      elim (Outcome-cases (collect_pack_files disk dir)) [
        | inl (e, bad) ↦ absurd (cc (rw bad at h))
        | inr (present, found) ↦ elim (Bool-cases (all (is_covered disk sdk dir listed) present)) [
          | inr bad ↦ absurd (cc (rw (found, bad) at h))
          | inl good ↦ (
            cc (rw (found, good) at h),
            λ p r. covered_cases dir p listed (
                all_of (is_covered disk sdk dir listed) p present good
                  (collect_pack_files_complete disk dir p present found r)),
          )
        ]
      ]
