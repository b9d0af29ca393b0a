-- ===== src/Runtime/Reloads.antt =====
-- Registration and hot reload: what they store, and that a failure changes nothing.
use greentic_designer_extens.Base.{
  ◌≡◌, refl, sym, subst, ap, ◌⊎◌, inl, inr, true, false, none, some, ◌∷◌, Option-cases, Bool-cases,
}
use greentic_designer_extens.Base.Outcome.{Outcome, ok, err}
use greentic_designer_extens.Capability.Contract.{Semver, Contract}
use greentic_designer_extens.Capability.Registry.{CapabilityRegistry}
use greentic_designer_extens.Runtime.Defs.{
  FilePath, RuntimeError, signature_invalid, extension_installed, extension_updated, Reload,
  installed, updated, refused_downgrade, LoadedExtension, Loaded, ExtensionRuntime, Gate, find_id,
  insert_id, rebuild_registry, mutate_loaded, is_downgrade, announce, emit,
  handle_added_or_modified, reload_edit,
}
use greentic_designer_extens.Runtime.Invariant.{IsConsistent, mutate_loaded_cases}

module _ (s : Semver) (c : Contract) where
  -- What a hot reload does to the loaded map.
  data Edited (ext : LoadedExtension s c) (m : Loaded s c) : Reload × Loaded s c → Type 0 where
    first : find_id s c ext.id m ≡ none → Edited ext m (installed, insert_id s c ext.id ext m)
    replaced :
        (prev : LoadedExtension s c)
        → find_id s c ext.id m ≡ some prev
        → is_downgrade s c prev.version ext.version ≡ false
        → Edited ext m (updated prev.version, insert_id s c ext.id ext m)
    refused :
        (prev : LoadedExtension s c)
        → find_id s c ext.id m ≡ some prev
        → is_downgrade s c prev.version ext.version ≡ true
        → Edited ext m (refused_downgrade prev.version, m)

  reload_edit-Edited :
      (ext : LoadedExtension s c) (m : Loaded s c) → Edited ext m (reload_edit s c ext m)
  unfolding reload_edit
  reload_edit-Edited ext m = elim (Option-cases (find_id s c ext.id m)) [
    | inl e ↦ rw (e, reload_edit) (first e)
    | inr (prev, e) ↦ elim (Bool-cases (is_downgrade s c prev.version ext.version)) [
      | inl older ↦ rw (e, reload_edit, older) (refused prev e older)
      | inr newer ↦ rw (e, reload_edit, newer) (replaced prev e newer)
    ]
  ]

  -- The five ends of a hot reload: what it answers and in which state. Only the last two change it.
  pub data Reloaded (gate : Gate s c) (dir : FilePath) (r : ExtensionRuntime s c)
      : Outcome RuntimeError (Unit {0}) × ExtensionRuntime s c → Type 0 where
    rejected : (e : RuntimeError) → gate dir ≡ err e → Reloaded gate dir r (err e, r)
    downgraded :
        (ext prev : LoadedExtension s c)
        → gate dir ≡ ok ext
        → find_id s c ext.id r.loaded ≡ some prev
        → is_downgrade s c prev.version ext.version ≡ true
        → Reloaded gate dir r (err (signature_invalid ext.id), r)
    unreadable :
        (ext : LoadedExtension s c) (e : RuntimeError)
        → gate dir ≡ ok ext
        → rebuild_registry s c (insert_id s c ext.id ext r.loaded) ≡ err e
        → Reloaded gate dir r (err e, r)
    newly_loaded :
        (ext : LoadedExtension s c) (reg : CapabilityRegistry s c)
        → gate dir ≡ ok ext
        → find_id s c ext.id r.loaded ≡ none
        → rebuild_registry s c (insert_id s c ext.id ext r.loaded) ≡ ok reg
        → Reloaded gate dir r (
          ok tt,
          record {
            loaded = insert_id s c ext.id ext r.loaded;
            capability_registry = reg;
            events = extension_installed ext.id ∷ r.events;
          },
        )
    exchanged :
        (ext prev : LoadedExtension s c) (reg : CapabilityRegistry s c)
        → gate dir ≡ ok ext
        → find_id s c ext.id r.loaded ≡ some prev
        → is_downgrade s c prev.version ext.version ≡ false
        → rebuild_registry s c (insert_id s c ext.id ext r.loaded) ≡ ok reg
        → Reloaded gate dir r (
          ok tt,
          record {
            loaded = insert_id s c ext.id ext r.loaded;
            capability_registry = reg;
            events = extension_updated ext.id prev.version ∷ r.events;
          },
        )

  module _ (gate : Gate s c) (dir : FilePath) (r : ExtensionRuntime s c) (v : IsConsistent s c r)
      (ext : LoadedExtension s c) (loads : gate dir ≡ ok ext) where
    stored_again :
        (reg : CapabilityRegistry s c)
        → rebuild_registry s c r.loaded ≡ ok reg
        → record r { capability_registry = reg } ≡ r
    stored_again reg h =
        let same : reg ≡ r.capability_registry = cc (h, v.derived) in
        ap (λ x. record r { capability_registry = x }) same

    failing :
        (e : RuntimeError) (x : Reload × Loaded s c)
        → Edited ext r.loaded x
        → rebuild_registry s c x.1 ≡ err e
        → Reloaded gate dir r (announce s c ext.id (err e, r))
    unfolding announce
    failing e _ (first absent) h = unreadable ext e loads h
    failing e _ (replaced prev at newer) h = unreadable ext e loads h
    failing e _ (refused prev at older) h = absurd (cc (h, v.derived))

    storing :
        (reg : CapabilityRegistry s c) (x : Reload × Loaded s c)
        → Edited ext r.loaded x
        → rebuild_registry s c x.1 ≡ ok reg
        → Reloaded gate dir r
            (announce s c ext.id (ok x.0, record r { loaded = x.1; capability_registry = reg }))
    unfolding announce emit
    storing reg _ (first absent) h = newly_loaded ext reg loads absent h
    storing reg _ (replaced prev found newer) h = exchanged ext prev reg loads found newer h
    storing reg _ (refused prev found older) h =
        subst (λ x. Reloaded gate dir r (err (signature_invalid ext.id), x))
          (sym (stored_again reg h)) (downgraded ext prev loads found older)

    verified-Reloaded :
        Reloaded gate dir r (announce s c ext.id (mutate_loaded s c (reload_edit s c ext) r))
    verified-Reloaded =
        mutate_loaded_cases s c (λ x. Reloaded gate dir r (announce s c ext.id x))
          (reload_edit s c ext) r (λ e h. failing e _ (reload_edit-Edited ext r.loaded) h)
          (λ reg h. storing reg _ (reload_edit-Edited ext r.loaded) h)

  pub loaded_cases :
      (x : Outcome RuntimeError (LoadedExtension s c))
      → ((e : RuntimeError) × (x ≡ err e)) ⊎ ((ext : LoadedExtension s c) × (x ≡ ok ext))
  loaded_cases (err e) = inl (e, refl)
  loaded_cases (ok ext) = inr (ext, refl)

  -- On a consistent state, a hot reload is rejected by the gate, refused as a downgrade, refused for an
  -- offered version that does not parse, or stores the verified extension at its id with the registry
  -- rebuilt and announces it as installed or updated; the three failures leave the state as it was.
  pub handle_added_or_modified-Reloaded :
      (gate : Gate s c) (dir : FilePath) (r : ExtensionRuntime s c)
      → IsConsistent s c r
      → Reloaded gate dir r (handle_added_or_modified s c gate dir r)
  unfolding handle_added_or_modified
  handle_added_or_modified-Reloaded gate dir r v = elim (loaded_cases (gate dir)) [
    | inl (e, bad) ↦ rw (bad, handle_added_or_modified) (rejected e bad)
    | inr (ext, loads) ↦
        rw (loads, handle_added_or_modified) (verified-Reloaded gate dir r v ext loads)
  ]
