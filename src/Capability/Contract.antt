-- ===== src/Capability/Contract.antt =====
-- What the program uses of the `semver` crate, of the SDK's contract crate and of wasmtime, as
-- parameters.
use Prim.Native.Nat.{Ordering}
use greentic_designer_extens.Base.{◌≡◌, ◌≢◌, ◌↔◌, Bool, true, Option, List, Text}

pub record Semver : Type 1 where
  pub Version : Type 0
  pub VersionReq : Type 0
  pub parse_version : Text → Option Version
  pub parse_req : Text → Option VersionReq
  pub req_matches : VersionReq → Version → Bool
  pub cmp : Version → Version → Ordering

-- `Version: Ord`, as far as the program relies on it: a total preorder.
pub record IsOrdered (s : Semver) : Type 0 where
  pub flip : (a b : s.Version) → s.cmp a b ≡ Ordering.gt → s.cmp b a ≡ Ordering.lt
  pub unflip : (a b : s.Version) → s.cmp a b ≡ Ordering.lt → s.cmp b a ≡ Ordering.gt
  pub trans :
      (a b c : s.Version)
      → s.cmp a b ≢ Ordering.lt
      → s.cmp b c ≢ Ordering.lt
      → s.cmp a c ≢ Ordering.lt

-- `CapabilityId` as a key, `ExtensionKind` with its directory names, and the name of the file that
-- describes an extension; `Component` is what wasmtime compiles.
pub record Contract : Type 1 where
  pub CapabilityId : Type 0
  pub cap_eq : CapabilityId → CapabilityId → Bool
  pub cap_eq_iff : (a b : CapabilityId) → (cap_eq a b ≡ true) ↔ (a ≡ b)
  pub ExtensionKind : Type 0
  pub all_kinds : List ExtensionKind
  pub dir_name : ExtensionKind → Text
  pub describe_entry_name : Text
  pub Component : Type 0
