-- ===== src/Capability/Examples.antt =====
-- Resolution and cycles on small registries, after tests/capability_registry.rs and
-- tests/cycle_detection.rs.
use greentic_designer_extens.Base.{◌≡◌, refl, some, List, [], ◌∷◌, Text, codes, ℕ}
use greentic_designer_extens.Capability.Sample.{sample, sample-IsOrdered, kinds}
use greentic_designer_extens.Capability.Registry.{
  OfferedBinding, CapabilityRef, CapabilityRegistry, Extensions, new, add_offering, resolve,
  detect_cycle,
}
use greentic_designer_extens.Capability.Resolution.{IsResolution, resolve-IsResolution}
use greentic_designer_extens.Capability.Cycles.{Lists, detect_cycle_lem}

resolving : Unit {0}
unfolding add_offering new resolve detect_cycle
resolving = tt

abbrev offer : Text → Text → ℕ → OfferedBinding sample kinds
offer extension cap version = record {
  extension_id = extension;
  cap_id = cap;
  version = version;
  kind = codes "design";
  export_path = [];
}

abbrev needs : Text → Text → CapabilityRef sample kinds
needs cap version = record { id = cap; version = version }

abbrev registry : CapabilityRegistry sample kinds
registry = add_offering sample kinds (offer (codes "b") (codes "cb") 2) (
    add_offering sample kinds (offer (codes "a") (codes "ca") 3)
      (add_offering sample kinds (offer (codes "a") (codes "ca") 1) (new sample kinds)))

abbrev wanted : List (CapabilityRef sample kinds)
wanted = needs (codes "ca") (codes "1") ∷ needs (codes "cb") (codes "5") ∷ []

resolve_test : resolve sample kinds registry (codes "x") wanted ≡ record {
  consumer = codes "x";
  resolved = (codes "ca", offer (codes "a") (codes "ca") 3) ∷ [];
  unresolved = needs (codes "cb") (codes "5") ∷ [];
}
unfolding resolving
resolve_test = refl

resolve-IsResolution_example :
    IsResolution sample kinds sample-IsOrdered registry wanted
      (resolve sample kinds registry (codes "x") wanted)
resolve-IsResolution_example =
    resolve-IsResolution sample kinds sample-IsOrdered registry (codes "x") wanted

-- `a` and `b` need each other, `d` needs `a`, and `e` needs nothing.
abbrev mutual_pair : Extensions sample kinds
mutual_pair =
    (codes "a", needs (codes "cb") (codes "1") ∷ [])
    ∷ (codes "b", needs (codes "ca") (codes "1") ∷ [])
    ∷ (codes "d", needs (codes "ca") (codes "2") ∷ [])
    ∷ (codes "e", [])
    ∷ []

detect_cycle_test :
    detect_cycle sample kinds registry mutual_pair ≡ some (codes "a" ∷ codes "b" ∷ codes "d" ∷ [])
unfolding resolving
detect_cycle_test = refl

detect_cycle_lem_example :
    (result : List Text) × (detect_cycle sample kinds registry mutual_pair ≡ some result)
    × Lists sample kinds registry mutual_pair mutual_pair result
detect_cycle_lem_example = detect_cycle_lem sample kinds registry mutual_pair
