-- ===== src/Runtime/Evictions.antt =====
-- An eviction always goes through: a map with fewer extensions can be rebuilt.
use greentic_designer_extens.Base.{
  ◌≡◌, refl, ◌⊎◌, inl, inr, Option, none, some, [], ◌∷◌, arith, Text, is_some, Option-cases,
  if◌then◌else◌,
}
use greentic_designer_extens.Base.Outcome.{Outcome, ok, err}
use greentic_designer_extens.Capability.Contract.{Semver, Contract}
use greentic_designer_extens.Runtime.Defs.{
  FilePath, RuntimeError, extension_removed, LoadedExtension, Loaded, ExtensionRuntime, find_id,
  without_id, rebuild_registry, mutate_loaded, report_eviction, evict, evict_edit, handle_removal,
  removal_edit, id_at, emit,
}
use greentic_designer_extens.Runtime.Advertised.{rebuilds}
use greentic_designer_extens.Runtime.Invariant.{
  IsConsistent, keep-Distinct, keep-All, mutate_loaded_cases, mutate_loaded-IsConsistent,
}

module _ (s : Semver) (c : Contract) where
  without_absent : (id : Text) (m : Loaded s c) → find_id s c id m ≡ none → without_id s c id m ≡ m
  unfolding find_id without_id
  without_absent id [] h = refl
  without_absent id (e ∷ m) h = ground (arith, without_absent id m)

  -- The removal of one id goes through whenever the whole map has a registry.
  without-rebuilds :
      (id : Text) (r : ExtensionRuntime s c) (e : RuntimeError)
      → IsConsistent s c r
      → rebuild_registry s c (without_id s c id r.loaded) ≡ err e
      → ⊥
  unfolding without_id
  without-rebuilds id r e v h =
      let readable = (rebuilds s c r.loaded).0 (r.capability_registry, v.derived) in
      let (reg, good) =
        (rebuilds s c (without_id s c id r.loaded)).1 (keep-All s c _ _ r.loaded readable) in
      cc (h, good)

  report_eviction-IsConsistent :
      (x : Outcome RuntimeError (Option Text) × ExtensionRuntime s c)
      → IsConsistent s c x.1
      → IsConsistent s c (report_eviction s c x)
  unfolding report_eviction emit
  report_eviction-IsConsistent (err e, r) v = v
  report_eviction-IsConsistent (ok none, r) v = v
  report_eviction-IsConsistent (ok (some id), r) v = record {
    derived = v.derived;
    distinct = v.distinct;
    keyed = v.keyed;
  }

  -- An edit that removes an id, or changes nothing.
  abbrev pub Removing : (Loaded s c → Option Text × Loaded s c) → Loaded s c → Type 0
  Removing edit m = (edit m ≡ (none, m)) ⊎ ((id : Text) × (edit m ≡ (some id, without_id s c id m)))

  module _ (edit : Loaded s c → Option Text × Loaded s c) (r : ExtensionRuntime s c)
      (v : IsConsistent s c r) where
    Removing-IsConsistent :
        Removing edit r.loaded → IsConsistent s c (report_eviction s c (mutate_loaded s c edit r))
    unfolding without_id
    Removing-IsConsistent (inl e) =
        report_eviction-IsConsistent _
          (mutate_loaded-IsConsistent s c edit r v (rw e v.distinct) (rw e v.keyed))
    Removing-IsConsistent (inr (id, e)) = report_eviction-IsConsistent _ (
        mutate_loaded-IsConsistent s c edit r v (rw e (keep-Distinct s c _ r.loaded v.distinct))
          (rw e (keep-All s c _ _ r.loaded v.keyed)))

    unchanged_lem :
        edit r.loaded ≡ (none, r.loaded)
        → ((report_eviction s c (mutate_loaded s c edit r)).loaded ≡ r.loaded)
          × ((report_eviction s c (mutate_loaded s c edit r)).events ≡ r.events)
    unfolding report_eviction
    unchanged_lem e =
        mutate_loaded_cases s c
          (λ x.
            ((report_eviction s c x).loaded ≡ r.loaded)
            × ((report_eviction s c x).events ≡ r.events))
          edit r (λ x h. (refl, refl)) (λ reg h. rw e (refl, refl))

    removed_lem :
        (id : Text)
        → edit r.loaded ≡ (some id, without_id s c id r.loaded)
        → ((report_eviction s c (mutate_loaded s c edit r)).loaded ≡ without_id s c id r.loaded)
          × ((report_eviction s c (mutate_loaded s c edit r)).events
              ≡ extension_removed id ∷ r.events)
    unfolding report_eviction emit
    removed_lem id e =
        mutate_loaded_cases s c
          (λ x.
            ((report_eviction s c x).loaded ≡ without_id s c id r.loaded)
            × ((report_eviction s c x).events ≡ extension_removed id ∷ r.events))
          edit r (λ x h. absurd (without-rebuilds id r x v (rw e at h)))
          (λ reg h. rw e (refl, refl))

  evict_edit-none :
      (id : Text) (m : Loaded s c) → find_id s c id m ≡ none → evict_edit s c id m ≡ (none, m)
  unfolding evict_edit
  evict_edit-none id m e = rw (e, evict_edit) refl

  evict_edit-some :
      (id : Text) (m : Loaded s c) (x : LoadedExtension s c)
      → find_id s c id m ≡ some x
      → evict_edit s c id m ≡ (some id, without_id s c id m)
  unfolding evict_edit
  evict_edit-some id m x e = rw (e, evict_edit) refl

  pub evict-IsConsistent :
      (id : Text) (r : ExtensionRuntime s c)
      → IsConsistent s c r
      → IsConsistent s c (evict s c id r)
  unfolding evict
  evict-IsConsistent id r v =
      Removing-IsConsistent (evict_edit s c id) r v (elim (Option-cases (find_id s c id r.loaded)) [
        | inl e ↦ inl (evict_edit-none id r.loaded e)
        | inr (x, e) ↦ inr (id, evict_edit-some id r.loaded x e)
      ])

  -- On a consistent state, evicting an id leaves the extensions at the other ids loaded and no others,
  -- and announces the removal exactly when the id was loaded: the rebuild of the registry never fails.
  pub evict_lem :
      (id : Text) (r : ExtensionRuntime s c)
      → IsConsistent s c r
      → ((evict s c id r).loaded ≡ without_id s c id r.loaded)
        × ((evict s c id r).events ≡ (
            if is_some (find_id s c id r.loaded)
            then extension_removed id ∷ r.events
            else r.events))
  unfolding evict
  evict_lem id r v = elim (Option-cases (find_id s c id r.loaded)) [
    | inl e ↦
        let (l, ev) = unchanged_lem (evict_edit s c id) r v (evict_edit-none id r.loaded e) in
        (rw (without_absent id r.loaded e) l, rw e ev)
    | inr (x, e) ↦
        let (l, ev) = removed_lem (evict_edit s c id) r v id (evict_edit-some id r.loaded x e) in
        (l, rw e ev)
  ]

  pub handle_removal-IsConsistent :
      (dir : FilePath) (r : ExtensionRuntime s c)
      → IsConsistent s c r
      → IsConsistent s c (handle_removal s c dir r)
  unfolding handle_removal removal_edit
  handle_removal-IsConsistent dir r v =
      Removing-IsConsistent (removal_edit s c dir) r v
        (elim (Option-cases (id_at s c dir r.loaded)) [
          | inl e ↦ inl (rw (e, removal_edit) refl)
          | inr (id, e) ↦ inr (id, rw (e, removal_edit) refl)
        ])
