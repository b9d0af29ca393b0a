-- ===== src/Verify/Examples.antt =====
-- A pack of one component, a smuggled file beside it, and paths that leave the pack.
use greentic_designer_extens.Base.{
  any_of_mem, ◌==◌, ◌≡◌, refl, true, none, some, List, [], ◌∷◌, Text, codes, text_eq, if◌then◌else◌,
  split_on,
}
use greentic_designer_extens.Base.Outcome.{ok, err}
use greentic_designer_extens.Runtime.Defs.{FilePath, path_eq}
use greentic_designer_extens.Verify.Sdk.{is_file, is_dir, Disk, Manifest, Sdk}
use greentic_designer_extens.Verify.Defs.{
  signature_invalid, components_of, join_normal, get_path, insert_path, pack_relative_path,
  collect_entries, collect_into, collect_pack_files, read_describe, check_entry, check_entries,
  is_covered, check_coverage, verify_dir_manifest, check_describe, verify_integrity, anchor,
  verify_dir_signature, read_verified,
}
use greentic_designer_extens.Verify.Ledger.{Vouched}
use greentic_designer_extens.Verify.Paths.{IsName, IsUnder, pack_relative_path-IsUnder}
use greentic_designer_extens.Verify.Spelled.{slashed, pack_relative_path-slashed}
use greentic_designer_extens.Verify.Signature.{Gated, verify_dir_signature-Gated, read_verified_lem}

verifying : Unit {0}
unfolding verify_dir_signature anchor verify_integrity check_describe verify_dir_manifest
    check_coverage is_covered check_entries check_entry read_describe collect_pack_files
    collect_into collect_entries pack_relative_path insert_path get_path join_normal components_of
    split_on read_verified
verifying = tt

abbrev pack : FilePath
pack = codes "p" ∷ []

abbrev wasm : FilePath
wasm = codes "a" ∷ pack

abbrev extra : FilePath
extra = codes "x" ∷ pack

-- The digest is the text itself; the trust store holds the keys that are pinned.
abbrev toy : Sdk
toy = record {
  Describe = Text;
  TrustStore = List Text;
  parse_describe = λ t. some t;
  id_of = λ d. codes "demo";
  public_key = λ d. some (codes "k");
  is_self_consistent = λ d. true;
  binds_manifest = λ d raw. text_eq d raw;
  parse_manifest = λ t. some (record {
    schema = codes "v1";
    entries = record { path = codes "a"; sha256 = codes "w" } ∷ [];
  });
  sha256_hex = λ t. t;
  pin_or_verify = λ store id key. some (key ∷ store);
  manifest_schema_v1 = codes "v1";
  manifest_entry_name = codes "m";
  describe_entry_name = codes "d";
}

-- The files of the pack, each a regular one.
abbrev disk_of : List FilePath → Disk
disk_of files = record {
  read = λ p. if path_eq p wasm then ok (codes "w") else ok (codes "s");
  symlink_metadata = λ p. if path_eq p pack then ok is_dir else ok is_file;
  read_dir = λ p. ok files;
}

abbrev clean : Disk
clean = disk_of ((codes "m" ∷ pack) ∷ (codes "d" ∷ pack) ∷ wasm ∷ [])

abbrev smuggled : Disk
smuggled = disk_of (wasm ∷ extra ∷ [])

gate_tests :
    (verify_dir_signature clean toy pack []
      ≡ (ok (codes "s", (wasm, codes "w") ∷ []), codes "k" ∷ []))
    × (verify_dir_signature smuggled toy pack [] ≡ (err (signature_invalid (codes "demo")), []))
    × (pack_relative_path pack (codes "a//./b") ≡ some (codes "b" ∷ codes "a" ∷ pack))
    × (pack_relative_path pack (codes "/etc") ≡ none)
    × (pack_relative_path pack (codes "a/../..") ≡ none)
unfolding verifying
gate_tests = (refl, refl, refl, refl, refl)

verify_dir_signature-Gated_example :
    Gated clean toy pack [] (verify_dir_signature clean toy pack [])
verify_dir_signature-Gated_example = verify_dir_signature-Gated clean toy pack []

read_verified_lem_example :
    (raw : Text) × (m : Manifest) × (clean.read (codes "m" ∷ pack) ≡ ok raw)
    × (text_eq (codes "s") raw ≡ true)
    × (toy.parse_manifest raw ≡ some m)
    × Vouched clean toy pack m.entries wasm (codes "w")
unfolding verifying
read_verified_lem_example =
    read_verified_lem clean toy smuggled pack [] (codes "k" ∷ []) (codes "s")
      ((wasm, codes "w") ∷ []) wasm (codes "w") refl refl

a_IsName : IsName (codes "a")
a_IsName = record {
  inhabited = λ e. cc;
  no_dot = λ e. cc;
  no_dots = λ e. cc;
  no_slash = λ i. cc (any_of_mem (λ x. x == b'/') b'/' (codes "a") i refl);
}

slashed_test : slashed (codes "a" ∷ codes "a" ∷ []) ≡ codes "a/a"
slashed_test = refl

pack_relative_path-IsUnder_example : IsUnder pack (codes "b" ∷ codes "a" ∷ pack)
unfolding verifying
pack_relative_path-IsUnder_example =
    pack_relative_path-IsUnder pack (codes "a//./b") (codes "b" ∷ codes "a" ∷ pack) refl

pack_relative_path-slashed_example :
    pack_relative_path pack (codes "a/a") ≡ some (codes "a" ∷ codes "a" ∷ pack)
pack_relative_path-slashed_example =
    pack_relative_path-slashed pack (codes "a") (codes "a" ∷ []) (a_IsName, (a_IsName, tt))
