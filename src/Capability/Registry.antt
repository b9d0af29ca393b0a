-- ===== src/Capability/Registry.antt =====
-- capability.rs. Maps are association lists; `dfs_has_cycle` runs on fuel, `none` when it is out.
use greentic_designer_extens.Base.{
  ℕ, zero, suc, Bool, true, false, not, Option, none, some, List, [], ◌∷◌, ◌++◌, Text, text_eq, any,
  keep, map, length, if◌then◌else◌,
}
use mathlib.Core.List.{flat_map}
use Prim.Native.Nat.{Ordering}
use greentic_designer_extens.Base.Options.{◌>>=◌}
use greentic_designer_extens.Capability.Contract.{Semver, Contract}

unfoldable pub remove_id : Text → List Text → List Text
remove_id id visited = keep (λ v. not (text_eq v id)) visited

-- The loop over the targets, with the set that each call leaves.
unfoldable pub visit :
    (Text → List Text → Option (Bool × List Text))
    → List Text
    → List Text
    → Option (Bool × List Text)
visit call [] visited = some (false, visited)
visit call (t ∷ ts) visited = elim (call t visited) [
  | none ↦ none
  | some (hit, visited') ↦
      let rest = visit call ts visited' in if hit then some (true, visited') else rest
]

unfoldable pub leave : Text → Option (Bool × List Text) → Option (Bool × List Text)
unfolding remove_id
leave id none = none
leave id (some (true, visited)) = some (true, visited)
leave id (some (false, visited)) = some (false, remove_id id visited)

module _ (s : Semver) (c : Contract) where
  open s use {Version, VersionReq, parse_req, req_matches, cmp}
  open c use {CapabilityId, cap_eq, ExtensionKind}

  pub record OfferedBinding : Type 0 where
    pub extension_id : Text
    pub cap_id : CapabilityId
    pub version : Version
    pub kind : ExtensionKind
    pub export_path : Text

  pub record CapabilityRef : Type 0 where
    pub id : CapabilityId
    pub version : Text

  pub record CapabilityRegistry : Type 0 where
    pub offerings : List (CapabilityId × List OfferedBinding)

  pub record ResolutionPlan : Type 0 where
    pub consumer : Text
    pub resolved : List (CapabilityId × OfferedBinding)
    pub unresolved : List CapabilityRef

  unfoldable pub new : CapabilityRegistry
  new = record { offerings = [] }

  -- `HashMap::get` and `HashMap::insert`.
  unfoldable pub get {ℓ} : {V : Type ℓ} → CapabilityId → List (CapabilityId × V) → Option V
  get k [] = none
  get k ((j, v) ∷ m) = if cap_eq j k then some v else get k m

  unfoldable pub insert {ℓ} :
      {V : Type ℓ} → CapabilityId → V → List (CapabilityId × V) → List (CapabilityId × V)
  insert k v [] = (k, v) ∷ []
  insert k v ((j, w) ∷ m) = if cap_eq j k then (j, v) ∷ m else (j, w) ∷ insert k v m

  -- `entry(k).or_default().push(o)`
  unfoldable pub push_at :
      CapabilityId
      → OfferedBinding
      → List (CapabilityId × List OfferedBinding)
      → List (CapabilityId × List OfferedBinding)
  push_at k o [] = (k, o ∷ []) ∷ []
  push_at k o ((j, os) ∷ m) =
      if cap_eq j k then (j, os ++ (o ∷ [])) ∷ m else (j, os) ∷ push_at k o m

  unfoldable pub add_offering : OfferedBinding → CapabilityRegistry → CapabilityRegistry
  unfolding push_at
  add_offering o r = record { offerings = push_at o.cap_id o r.offerings }

  -- The offers of a capability, none for an unknown one.
  unfoldable pub offers_of : CapabilityRegistry → CapabilityId → List OfferedBinding
  unfolding get
  offers_of r id = elim (get id r.offerings) [ none ↦ [] | some os ↦ os ]

  -- `Iterator::max_by`: of equal maxima the last.
  unfoldable pub max_from : OfferedBinding → List OfferedBinding → OfferedBinding
  max_from best [] = best
  max_from best (o ∷ os) =
      max_from (elim (cmp best.version o.version) [ Ordering.gt ↦ best | _ ↦ o ]) os

  unfoldable pub max_by_version : List OfferedBinding → Option OfferedBinding
  unfolding max_from
  max_by_version [] = none
  max_by_version (o ∷ os) = some (max_from o os)

  unfoldable pub matching : CapabilityRegistry → CapabilityRef → VersionReq → List OfferedBinding
  unfolding offers_of
  matching r req vr = keep (λ o. req_matches vr o.version) (offers_of r req.id)

  unfoldable pub best_for : CapabilityRegistry → CapabilityRef → Option OfferedBinding
  unfolding matching max_by_version
  best_for r req = do vr ← parse_req req.version; max_by_version (matching r req vr)

  -- The loop of `resolve`, over the plan so far.
  unfoldable pub resolve_from :
      CapabilityRegistry → ResolutionPlan → List CapabilityRef → ResolutionPlan
  unfolding best_for insert
  resolve_from r plan [] = plan
  resolve_from r plan (req ∷ required) =
      resolve_from r
        (elim (best_for r req) [
          | none ↦ record plan { unresolved = plan.unresolved ++ (req ∷ []) }
          | some o ↦ record plan { resolved = insert req.id o plan.resolved }
        ])
        required

  unfoldable pub resolve : CapabilityRegistry → Text → List CapabilityRef → ResolutionPlan
  unfolding resolve_from
  resolve r consumer required =
      resolve_from r (record { consumer = consumer; resolved = []; unresolved = [] }) required

  abbrev pub Extensions : Type 0
  Extensions = List (Text × List CapabilityRef)

  -- `ext_map.get(id)`, for a map collected from the list: the last entry of a name stands.
  unfoldable pub reqs_of : Text → Extensions → Option (List CapabilityRef)
  reqs_of id [] = none
  reqs_of id ((k, reqs) ∷ exts) = elim (reqs_of id exts) [
    | some later ↦ some later
    | none ↦ if text_eq k id then some reqs else none
  ]

  -- The extensions that the two nested loops visit for one requirement, in order.
  unfoldable pub targets_of : CapabilityRegistry → CapabilityRef → List Text
  unfolding matching
  targets_of r req = elim (parse_req req.version) [
    | none ↦ []
    | some vr ↦ map (λ o. o.extension_id) (matching r req vr)
  ]

  unfoldable pub targets : CapabilityRegistry → List CapabilityRef → List Text
  unfolding targets_of flat_map
  targets r reqs = flat_map (targets_of r) reqs

  unfoldable pub dfs_has_cycle :
      CapabilityRegistry → Extensions → ℕ → Text → List Text → Option (Bool × List Text)
  unfolding reqs_of targets visit leave
  dfs_has_cycle r exts zero id visited = none
  dfs_has_cycle r exts (suc fuel) id visited = elim (any (λ v. text_eq v id) visited) [
    | true ↦ some (true, visited)
    | false ↦ elim (reqs_of id exts) [
      | none ↦ leave id (some (false, id ∷ visited))
      | some reqs ↦ leave id (visit (dfs_has_cycle r exts fuel) (targets r reqs) (id ∷ visited))
    ]
  ]

  -- The loop of `detect_cycle`, each search from an empty set.
  unfoldable pub detect_from : CapabilityRegistry → Extensions → ℕ → Extensions → Option (List Text)
  unfolding dfs_has_cycle
  detect_from r exts fuel [] = some []
  detect_from r exts fuel ((id, _) ∷ rest) = do
    found ← dfs_has_cycle r exts fuel id []
    in_cycle ← detect_from r exts fuel rest
    some (if found.0 then id ∷ in_cycle else in_cycle)

  unfoldable pub detect_cycle : CapabilityRegistry → Extensions → Option (List Text)
  unfolding detect_from
  detect_cycle r exts = detect_from r exts (suc (length exts)) exts
