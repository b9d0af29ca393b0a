-- ===== src/Verify/Signature.antt =====
-- The whole gate: what holds of a directory that passes, and that the pin comes last.
use greentic_designer_extens.Base.{
  Memᴰ, ◌≡◌, subst, inl, inr, true, some, [], ◌∷◌, Text, text_eq, text_eq_iff, Bool-cases,
  Option-cases,
}
use greentic_designer_extens.Base.Outcome.{Outcome, Outcome-cases, ok, err, ◌>>=◌, >>=-eq-ok}
use greentic_designer_extens.Runtime.Defs.{FilePath}
use greentic_designer_extens.Verify.Sdk.{ManifestEntry, not_found, other_io, Disk, Manifest, Sdk}
use greentic_designer_extens.Verify.Defs.{
  VerifyError, Listed, get_path, read_describe, check_entries, check_coverage, verify_dir_manifest,
  check_describe, verify_integrity, anchor, verify_dir_signature, read_verified,
}
use greentic_designer_extens.Verify.Ledger.{
  Vouched, Recorded, Covered, check_entries-Recorded, check_entries_present, check_coverage-Covered,
}

module _ (disk : Disk) (sdk : Sdk) where
  open sdk use {
    Describe, TrustStore, parse_describe, id_of, public_key, is_self_consistent, binds_manifest,
    parse_manifest, sha256_hex, pin_or_verify, manifest_schema_v1, manifest_entry_name,
    describe_entry_name,
  }

  -- The directory is what the bound manifest lists, and nothing else.
  pub record IsIntact (dir : FilePath) (describe : Describe) (ledger : Listed) : Type 0 where
    pub raw : Text
    pub reads : disk.read (manifest_entry_name ∷ dir) ≡ ok raw
    pub bound : binds_manifest describe raw ≡ true
    pub manifest : Manifest
    pub parses : parse_manifest raw ≡ some manifest
    pub known_schema : manifest.schema ≡ manifest_schema_v1
    pub recorded : Recorded disk sdk dir manifest.entries ledger
    pub present :
        (e : ManifestEntry)
        → Memᴰ e manifest.entries
        → (p : FilePath) × Vouched disk sdk dir manifest.entries p e.sha256
    pub covered : Covered disk sdk dir ledger

  Entered : FilePath → Manifest → Listed → Type 0
  Entered dir manifest ledger =
      Recorded disk sdk dir manifest.entries ledger
      × ((e : ManifestEntry)
          → Memᴰ e manifest.entries
          → (p : FilePath) × Vouched disk sdk dir manifest.entries p e.sha256)
      × Covered disk sdk dir ledger

  entries_intact :
      (dir : FilePath) (describe : Describe) (ledger : Listed) (manifest : Manifest)
      → (check_entries disk sdk (id_of describe) dir manifest.entries []
          >>= check_coverage disk sdk (id_of describe) dir)
        ≡ ok ledger
      → Entered dir manifest ledger
  unfolding get_path Entered
  entries_intact dir describe ledger manifest h =
      let id = id_of describe in
      let (listed, checked, coverage) =
        >>=-eq-ok (check_entries disk sdk id dir manifest.entries [])
          (check_coverage disk sdk id dir) h in
      let (same, covered) = check_coverage-Covered disk sdk id dir listed ledger coverage in
      let recorded =
        check_entries-Recorded disk sdk id dir manifest.entries manifest.entries [] listed
          (λ e i. i) (λ p d k. absurd (cc (k))) checked in
      let present =
        check_entries_present disk sdk id dir manifest.entries manifest.entries [] listed (λ e i. i)
          checked in
      subst (Entered dir manifest) same (recorded, present, covered)

  verify_dir_manifest-IsIntact :
      (dir : FilePath) (describe : Describe) (ledger : Listed)
      → verify_dir_manifest disk sdk dir describe ≡ ok ledger
      → IsIntact dir describe ledger
  unfolding verify_dir_manifest Entered
  verify_dir_manifest-IsIntact dir describe ledger h =
      elim (Outcome-cases (disk.read (manifest_entry_name ∷ dir))) [
        | inl (not_found, bad) ↦ absurd (cc (rw (bad, verify_dir_manifest) at h))
        | inl (other_io, bad) ↦ absurd (cc (rw (bad, verify_dir_manifest) at h))
        | inr (raw, reads) ↦ elim (Bool-cases (binds_manifest describe raw)) [
          | inr bad ↦ absurd (cc (rw (reads, verify_dir_manifest, bad) at h))
          | inl bound ↦ elim (Option-cases (parse_manifest raw)) [
            | inl bad ↦ absurd (cc (rw (reads, verify_dir_manifest, bound, bad) at h))
            | inr (manifest, parses) ↦
                elim (Bool-cases (text_eq manifest.schema manifest_schema_v1)) [
                  | inr bad ↦ absurd (cc (rw (reads, verify_dir_manifest, bound, parses, bad) at h))
                  | inl schema ↦
                      let (recorded, present, covered) =
                        entries_intact dir describe ledger manifest
                          (rw (reads, verify_dir_manifest, bound, parses, schema) at h) in
                      record {
                        raw = raw;
                        reads = reads;
                        bound = bound;
                        manifest = manifest;
                        parses = parses;
                        known_schema = (text_eq_iff _ _).0 schema;
                        recorded = recorded;
                        present = present;
                        covered = covered;
                      }
                ]
          ]
        ]
      ]

  -- The description parses and is consistent with its signature, the directory is intact, and the key
  -- is the one that the trust store has or now has for the id.
  pub record IsVerified (dir : FilePath) (store : TrustStore) (describe : Describe)
      (ledger : Listed) (store' : TrustStore) : Type 0 where
    pub described : read_describe disk sdk dir ≡ ok describe
    pub consistent : is_self_consistent describe ≡ true
    pub key : Text
    pub signed : public_key describe ≡ some key
    pub intact : IsIntact dir describe ledger
    pub pinned : pin_or_verify store (id_of describe) key ≡ some store'

  abbrev Integral : FilePath → Describe × (Text × Listed) → Type 0
  Integral dir v =
      (read_describe disk sdk dir ≡ ok v.0)
      × (is_self_consistent v.0 ≡ true)
      × (public_key v.0 ≡ some v.1.0)
      × IsIntact dir v.0 v.1.1

  check_describe-Integral :
      (dir : FilePath) (describe : Describe) (v : Describe × (Text × Listed))
      → read_describe disk sdk dir ≡ ok describe
      → check_describe disk sdk dir describe ≡ ok v
      → Integral dir v
  unfolding check_describe
  check_describe-Integral dir describe v described h =
      elim (Bool-cases (is_self_consistent describe)) [
        | inr bad ↦ absurd (cc (rw bad at h))
        | inl consistent ↦ elim (Option-cases (public_key describe)) [
          | inl bad ↦ absurd (cc (rw (consistent, bad) at h))
          | inr (k, signed) ↦ elim (Outcome-cases (verify_dir_manifest disk sdk dir describe)) [
            | inl (e, bad) ↦ absurd (cc (rw (consistent, signed, bad) at h))
            | inr (l, good) ↦
                let same : ◌≡◌ {A = Describe × (Text × Listed)} (describe, (k, l)) v =
                  cc (rw (consistent, signed, good) at h) in
                subst (Integral dir) same
                  (described, consistent, signed, verify_dir_manifest-IsIntact dir describe l good)
          ]
        ]
      ]

  verify_integrity-Integral :
      (dir : FilePath) (v : Describe × (Text × Listed))
      → verify_integrity disk sdk dir ≡ ok v
      → Integral dir v
  unfolding verify_integrity
  verify_integrity-Integral dir v h =
      let (describe, reads, rest) =
        >>=-eq-ok (read_describe disk sdk dir) (check_describe disk sdk dir) h in
      check_describe-Integral dir describe v reads rest

  -- What the gate answers, and the trust store that it leaves.
  pub data Gated (dir : FilePath) (store : TrustStore)
      : Outcome VerifyError (Describe × Listed) × TrustStore → Type 0 where
    refused : (e : VerifyError) → Gated dir store (err e, store)
    passed :
        (describe : Describe) (ledger : Listed) (store' : TrustStore)
        → IsVerified dir store describe ledger store'
        → Gated dir store (ok (describe, ledger), store')

  -- The gate refuses a directory and leaves the trust store as it was, or its description is consistent
  -- with its signature, the directory is exactly what the bound manifest lists, and only then the key is
  -- pinned or found pinned for the id.
  pub verify_dir_signature-Gated :
      (dir : FilePath) (store : TrustStore)
      → Gated dir store (verify_dir_signature disk sdk dir store)
  unfolding verify_dir_signature anchor
  verify_dir_signature-Gated dir store = elim (Outcome-cases (verify_integrity disk sdk dir)) [
    | inl (e, bad) ↦ rw (bad, verify_dir_signature) (refused e)
    | inr ((describe, (key, ledger)), good) ↦
        let (described, consistent, signed, intact) =
          verify_integrity-Integral dir (describe, (key, ledger)) good in
        elim (Option-cases (pin_or_verify store (id_of describe) key)) [
          | inl bad ↦ rw (good, verify_dir_signature, anchor, bad) (refused _)
          | inr (store', pinned) ↦
              rw (good, verify_dir_signature, anchor, pinned)
                (passed describe ledger store' (record {
                  described = described;
                  consistent = consistent;
                  key = key;
                  signed = signed;
                  intact = intact;
                  pinned = pinned;
                }))
        ]
  ]

  pub read_verified-hash :
      (later : Disk) (ledger : Listed) (p : FilePath) (bytes : Text)
      → read_verified later sdk ledger p ≡ some bytes
      → get_path p ledger ≡ some (sha256_hex bytes)
  unfolding read_verified
  read_verified-hash later ledger p bytes h = elim (Outcome-cases (later.read p)) [
    | inl (e, bad) ↦ absurd (cc (rw (bad, read_verified) at h))
    | inr (b, reads) ↦ elim (Option-cases (get_path p ledger)) [
      | inl bad ↦ absurd (cc (rw (reads, read_verified, bad) at h))
      | inr (digest, found) ↦ elim (Bool-cases (text_eq (sha256_hex b) digest)) [
        | inr bad ↦ absurd (cc (rw (reads, read_verified, found, bad) at h))
        | inl good ↦
            let same : b ≡ bytes = cc (rw (reads, read_verified, found, good) at h) in
            rw (← same) (cc (found, (text_eq_iff (sha256_hex b) digest).0 good))
      ]
    ]
  ]

  -- If a directory passes the gate, then however its files change afterwards, bytes that are read
  -- through its ledger have the digest of an entry of the bound manifest and of the file that stood there
  -- when the directory was verified.
  pub read_verified_lem :
      (later : Disk) (dir : FilePath) (store store' : TrustStore) (describe : Describe)
      (ledger : Listed) (p : FilePath) (bytes : Text)
      → verify_dir_signature disk sdk dir store ≡ (ok (describe, ledger), store')
      → read_verified later sdk ledger p ≡ some bytes
      → (raw : Text) × (m : Manifest) × (disk.read (manifest_entry_name ∷ dir) ≡ ok raw)
        × (binds_manifest describe raw ≡ true)
        × (parse_manifest raw ≡ some m)
        × Vouched disk sdk dir m.entries p (sha256_hex bytes)
  read_verified_lem later dir store store' describe ledger p bytes h k =
      let intact = from _ (verify_dir_signature-Gated dir store) h in
      (
        intact.raw,
        intact.manifest,
        intact.reads,
        intact.bound,
        intact.parses,
        intact.recorded p (sha256_hex bytes) (read_verified-hash later ledger p bytes k),
      )
    where
      from :
          (x : Outcome VerifyError (Describe × Listed) × TrustStore)
          → Gated dir store x
          → x ≡ (ok (describe, ledger), store')
          → IsIntact dir describe ledger
      from _ (refused e) same = cc (same)
      from _ (passed d l st v) same =
          let d_same : d ≡ describe = cc (same) in
          let l_same : l ≡ ledger = cc (same) in
          subst (λ x. IsIntact dir x ledger) d_same (subst (λ x. IsIntact dir d x) l_same v.intact)
