-- ===== src/Verify/Sdk.antt =====
-- What the load gate uses of the file system, of the SDK's crates and of sha2, as parameters.
use greentic_designer_extens.Base.{Bool, Option, List, Text}
use greentic_designer_extens.Base.Outcome.{Outcome}
use greentic_designer_extens.Runtime.Defs.{FilePath}

pub data IoError : Type 0 where
  not_found other_io : IoError

-- `symlink_metadata`, which does not follow the last component.
pub data Meta : Type 0 where
  is_file is_dir is_other : Meta

pub record Disk : Type 0 where
  pub read : FilePath → Outcome IoError Text
  pub symlink_metadata : FilePath → Outcome IoError Meta
  pub read_dir : FilePath → Outcome IoError (List FilePath)

pub record ManifestEntry : Type 0 where
  pub path : Text
  pub sha256 : Text

pub record Manifest : Type 0 where
  pub schema : Text
  pub entries : List ManifestEntry

-- The contract crate with serde and the schema, the digest in hexadecimal, and the trust store.
pub record Sdk : Type 1 where
  pub Describe : Type 0
  pub TrustStore : Type 0
  pub parse_describe : Text → Option Describe
  pub id_of : Describe → Text
  pub public_key : Describe → Option Text
  pub is_self_consistent : Describe → Bool
  pub binds_manifest : Describe → Text → Bool
  pub parse_manifest : Text → Option Manifest
  pub sha256_hex : Text → Text
  pub pin_or_verify : TrustStore → Text → Text → Option TrustStore
  pub manifest_schema_v1 : Text
  pub manifest_entry_name : Text
  pub describe_entry_name : Text
