-- ===== src/Watch/Events.antt =====
-- What the watcher's events do to a state, and the invariant over any run of the operations.
use greentic_designer_extens.Base.{
  ◌↔◌, ◌≢◌, true, ◌∷◌, Memᴰ, codes, mem-keep_of, Option-cases, ◌≡◌, refl, subst, ◌⊎◌, inl, inr,
  false, not, Option, none, some, Text, Bool-cases, keep, mem-keep,
}
use greentic_designer_extens.Base.Outcome.{Outcome, ok, err}
use greentic_designer_extens.Capability.Contract.{Semver, Contract}
use greentic_designer_extens.Runtime.Defs.{
  FilePath, path_eq, RuntimeError, state_file_changed, LoadedExtension, ExtensionRuntime, Gate,
  find_id, emit, is_downgrade, handle_added_or_modified,
}
use greentic_designer_extens.Runtime.Invariant.{IsConsistent}
use greentic_designer_extens.Runtime.Reloads.{
  Reloaded, rejected, downgraded, unreadable, newly_loaded, exchanged,
  handle_added_or_modified-Reloaded,
}
use greentic_designer_extens.Runtime.Downgrades.{no_downgrade, IsOlder, is_downgrade_iff}
use greentic_designer_extens.Watch.Locate.{path_eq_iff}
use greentic_designer_extens.Runtime.Upkeep.{handle_added_or_modified-IsConsistent}
use greentic_designer_extens.Watch.Defs.{
  FsEvent, added, modified, removed, FileSystem, DiscoveryPaths, all_roots, find_extension_dir,
  is_state_file, path_of, reload_at, handle_fs_event, evict_vanished_extensions, has_vanished,
  vanished_ids, Stat, present, absent, unreadable, parent, home, state_filename,
}
use greentic_designer_extens.Watch.Vanished.{
  evict_vanished_lem, evict_all-IsConsistent, find_id-mem, mem-find_id,
}

has_vanished_iff :
    (fs : FileSystem) (dir : FilePath)
    → (not (has_vanished fs dir) ≡ true) ↔ (fs.symlink_metadata dir ≢ absent)
unfolding has_vanished
has_vanished_iff fs dir = by_stat (fs.symlink_metadata dir)
  where
    by_stat :
        (st : Stat)
        → (not (elim st [ present ↦ false | absent ↦ true | unreadable ↦ false ]) ≡ true)
          ↔ (st ≢ absent)
    by_stat present = (λ h e. cc (e), λ h. refl)
    by_stat absent = (λ h. cc (h), λ h. absurd (h refl))
    by_stat unreadable = (λ h e. cc (e), λ h. refl)

module _ (s : Semver) (c : Contract) where
  not_state_file :
      (paths : DiscoveryPaths) (p : FilePath)
      → ((dir : FilePath) → parent paths.user ≡ some dir → p ≢ codes "extensions-state.json" ∷ dir)
      → is_state_file s c paths p ≡ false
  unfolding is_state_file home
  not_state_file paths p elsewhere = elim (Option-cases (parent paths.user)) [
    | inl e ↦ rw (e, is_state_file) refl
    | inr (dir, e) ↦ elim (Bool-cases (path_eq p (state_filename ∷ dir))) [
      | inl same ↦ absurd (elsewhere dir e ((path_eq_iff p (state_filename ∷ dir)).0 same))
      | inr other ↦ rw (e, is_state_file, other) refl
    ]
  ]

  -- The ends of one event, by what it is.
  module _ (gate : Gate s c) (fs : FileSystem) (paths : DiscoveryPaths)
      (r : ExtensionRuntime s c) where
    event_cases {ℓ} :
        (C : Outcome RuntimeError (Unit {0}) × ExtensionRuntime s c → Type ℓ) (event : FsEvent)
        → C (ok tt, r)
        → C (ok tt, emit s c state_file_changed r)
        → ((dir : FilePath) → C (handle_added_or_modified s c gate dir r))
        → C (ok tt, evict_vanished_extensions s c fs r)
        → C (handle_fs_event s c gate fs paths event r)
    unfolding handle_fs_event reload_at
    event_cases C event quiet state reload vanish =
        elim (Bool-cases (is_state_file s c paths (path_of s c event))) [
          | inl yes_state ↦ rw yes_state state
          | inr other ↦ rw other (by_event event)
        ]
      where
        at : (o : Option FilePath) → C (reload_at s c gate o r)
        at none = quiet
        at (some dir) = reload dir

        by_event :
            (event : FsEvent)
            → C (elim event [
              | added p ↦ reload_at s c gate (find_extension_dir s c fs (all_roots paths) p) r
              | modified p ↦ reload_at s c gate (find_extension_dir s c fs (all_roots paths) p) r
              | removed p ↦ (ok tt, evict_vanished_extensions s c fs r)
            ])
        by_event (added p) = at (find_extension_dir s c fs (all_roots paths) p)
        by_event (modified p) = at (find_extension_dir s c fs (all_roots paths) p)
        by_event (removed p) = vanish

    pub handle_fs_event-IsConsistent :
        (event : FsEvent)
        → IsConsistent s c r
        → IsConsistent s c (handle_fs_event s c gate fs paths event r).1
    unfolding emit evict_vanished_extensions
    handle_fs_event-IsConsistent event v =
        event_cases (λ x. IsConsistent s c x.1) event v
          (record { derived = v.derived; distinct = v.distinct; keyed = v.keyed })
          (λ dir. handle_added_or_modified-IsConsistent s c gate dir r v)
          (evict_all-IsConsistent s c (vanished_ids s c fs r.loaded) r v)

    still_there :
        (id : Text) (prev now : LoadedExtension s c)
        → IsConsistent s c r
        → find_id s c id r.loaded ≡ some prev
        → find_id s c id (evict_vanished_extensions s c fs r).loaded ≡ some now
        → now ≡ prev
    still_there id prev now v h k =
        let kept : find_id s c id (keep (λ e. not (has_vanished fs e.1.source_dir)) r.loaded)
            ≡ some now =
          rw (evict_vanished_lem s c fs r v) at k in
        let (i, _) = mem-keep _ (id, now) r.loaded (mem-find_id s c _ id now kept) in
        cc (h, find_id-mem s c r.loaded (id, now) v.distinct i)

    kept_or_exchanged :
        (event : FsEvent) (id : Text) (prev now : LoadedExtension s c)
        → IsConsistent s c r
        → find_id s c id r.loaded ≡ some prev
        → find_id s c id (handle_fs_event s c gate fs paths event r).1.loaded ≡ some now
        → (now ≡ prev) ⊎ (is_downgrade s c prev.version now.version ≡ false)
    unfolding emit
    kept_or_exchanged event id prev now v h k =
        event_cases
          (λ x.
            find_id s c id x.1.loaded ≡ some now
            → (now ≡ prev) ⊎ (is_downgrade s c prev.version now.version ≡ false))
          event (λ e. inl (cc (h, e))) (λ e. inl (cc (h, e)))
          (λ dir e. reloaded dir e (no_downgrade s c gate dir r v id prev h))
          (λ e. inl (still_there id prev now v h e)) k
      where
        reloaded :
            (dir : FilePath)
            → find_id s c id (handle_added_or_modified s c gate dir r).1.loaded ≡ some now
            → ((x : LoadedExtension s c) × (find_id s c id
                    (handle_added_or_modified s c gate dir r).1.loaded
                  ≡ some x)
                × ((x ≡ prev) ⊎ (is_downgrade s c prev.version x.version ≡ false)))
            → (now ≡ prev) ⊎ (is_downgrade s c prev.version now.version ≡ false)
        reloaded dir e (x, f, ends) =
            let same : x ≡ now = cc (e, f) in
            subst (λ w. (w ≡ prev) ⊎ (is_downgrade s c prev.version w.version ≡ false)) same ends

    -- On a consistent state, whatever a watcher's event does, an extension that is loaded before and after
    -- it is the same extension, or the two versions are not such that both parse and the new one is below
    -- the old one.
    pub event_no_downgrade :
        (event : FsEvent) (id : Text) (prev now : LoadedExtension s c)
        → IsConsistent s c r
        → find_id s c id r.loaded ≡ some prev
        → find_id s c id (handle_fs_event s c gate fs paths event r).1.loaded ≡ some now
        → (now ≡ prev) ⊎ ¬ IsOlder s prev.version now.version
    event_no_downgrade event id prev now v h k = elim (kept_or_exchanged event id prev now v h k) [
      | inl same ↦ inl same
      | inr newer ↦ inr (λ o. cc (newer, (is_downgrade_iff s c prev.version now.version).1 o))
    ]

    -- On a consistent state, a removal, of any path but that of the state file, succeeds and leaves loaded
    -- exactly the extensions for whose directory the file system does not answer that it is absent,
    -- whatever other extensions the same event evicts.
    pub removed_lem :
        (p : FilePath)
        → IsConsistent s c r
        → ((dir : FilePath)
            → parent paths.user ≡ some dir
            → p ≢ codes "extensions-state.json" ∷ dir)
        → ((handle_fs_event s c gate fs paths (removed p) r).0 ≡ ok tt)
          × ((e : Text × LoadedExtension s c)
              → Memᴰ e (handle_fs_event s c gate fs paths (removed p) r).1.loaded
                ↔ (Memᴰ e r.loaded × (fs.symlink_metadata e.1.source_dir ≢ absent)))
    unfolding handle_fs_event
    removed_lem p v elsewhere =
        let other = not_state_file paths p elsewhere in
        (rw other refl, λ e. rw (other, evict_vanished_lem s c fs r v) (kept_iff e))
      where
        kept_iff :
            (e : Text × LoadedExtension s c)
            → Memᴰ e (keep (λ e. not (has_vanished fs e.1.source_dir)) r.loaded)
              ↔ (Memᴰ e r.loaded × (fs.symlink_metadata e.1.source_dir ≢ absent))
        kept_iff e = (
          λ i.
              let (j, there) = mem-keep _ e r.loaded i in
              (j, (has_vanished_iff fs e.1.source_dir).0 there),
          λ (j, there). mem-keep_of _ e r.loaded j ((has_vanished_iff fs e.1.source_dir).1 there),
        )

    unchanged :
        (dir : FilePath) (x : Outcome RuntimeError (Unit {0}) × ExtensionRuntime s c)
        (e : RuntimeError)
        → Reloaded s c gate dir r x
        → x.0 ≡ err e
        → x.1 ≡ r
    unchanged dir _ e (rejected e' bad) h = refl
    unchanged dir _ e (downgraded ext old loads found older) h = refl
    unchanged dir _ e (unreadable ext e' loads bad) h = refl
    unchanged dir _ e (newly_loaded ext reg loads no_one good) h = cc (h)
    unchanged dir _ e (exchanged ext old reg loads found newer good) h = cc (h)

    -- On a consistent state, an event that fails leaves the state, with its events, as it was.
    pub failed_event_unchanged :
        (event : FsEvent) (e : RuntimeError)
        → IsConsistent s c r
        → (handle_fs_event s c gate fs paths event r).0 ≡ err e
        → (handle_fs_event s c gate fs paths event r).1 ≡ r
    failed_event_unchanged event e v h =
        event_cases (λ x. x.0 ≡ err e → x.1 ≡ r) event (λ k. refl) (λ k. absurd (cc (k)))
          (λ dir. unchanged dir _ e (handle_added_or_modified-Reloaded s c gate dir r v))
          (λ k. absurd (cc (k))) h
