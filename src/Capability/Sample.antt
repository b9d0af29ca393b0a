-- ===== src/Capability/Sample.antt =====
-- A small stand-in for versions and capability ids, for the examples only: a version is a digit, and
-- a requirement `n` asks for `n` or later.
use Prim.Native.Nat.{Ordering, compare}
use greentic_designer_extens.Base.{
  ℕ, ◌-◌, ◌≡◌, ◌≢◌, Option, none, some, [], ◌∷◌, arith, Text, codes, text_eq, text_eq_iff, leb,
  if◌then◌else◌, ◌&&◌,
}
use greentic_designer_extens.Capability.Contract.{Semver, IsOrdered, Contract}

abbrev digit : Text → Option ℕ
digit [] = none
digit (c ∷ s) = if leb b'0' c && leb c b'9' then some (c - b'0') else none

abbrev pub sample : Semver
sample = record {
  Version = ℕ;
  VersionReq = ℕ;
  parse_version = digit;
  parse_req = digit;
  req_matches = leb;
  cmp = compare;
}

compare-flip : (a b : ℕ) → compare a b ≡ Ordering.gt → compare b a ≡ Ordering.lt
compare-flip a b h = ground arith

compare-unflip : (a b : ℕ) → compare a b ≡ Ordering.lt → compare b a ≡ Ordering.gt
compare-unflip a b h = ground arith

compare_trans :
    (a b c : ℕ) → compare a b ≢ Ordering.lt → compare b c ≢ Ordering.lt → compare a c ≢ Ordering.lt
compare_trans a b c h k = ground arith

pub sample-IsOrdered : IsOrdered sample
sample-IsOrdered = record { flip = compare-flip; unflip = compare-unflip; trans = compare_trans }

abbrev pub kinds : Contract
kinds = record {
  CapabilityId = Text;
  cap_eq = text_eq;
  cap_eq_iff = text_eq_iff;
  ExtensionKind = Text;
  all_kinds = codes "design" ∷ codes "deploy" ∷ [];
  dir_name = λ k. k;
  describe_entry_name = codes "describe.json";
  Component = Text;
}
