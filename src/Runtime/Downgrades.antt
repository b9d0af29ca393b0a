-- ===== src/Runtime/Downgrades.antt =====
-- No hot reload puts an older version in the place of a loaded one.
use Prim.Native.Nat.{Ordering}
use greentic_designer_extens.Base.{
  ◌↔◌, true, Option-cases, ◌≡◌, refl, subst, ◌⊎◌, inl, inr, false, some, Text, Bool-cases, text_eq,
  text_eq_iff,
}
use greentic_designer_extens.Base.Outcome.{Outcome}
use greentic_designer_extens.Capability.Contract.{Semver, Contract}
use greentic_designer_extens.Runtime.Defs.{
  FilePath, RuntimeError, LoadedExtension, ExtensionRuntime, Gate, find_id, is_downgrade,
  handle_added_or_modified,
}
use greentic_designer_extens.Runtime.Invariant.{IsConsistent, find_id-insert_id}
use greentic_designer_extens.Runtime.Reloads.{
  Reloaded, rejected, downgraded, unreadable, newly_loaded, exchanged,
  handle_added_or_modified-Reloaded,
}

-- Both texts are versions, and the second is below the first.
abbrev pub IsOlder : Semver → Text → Text → Type 0
IsOlder s current candidate =
    (v : s.Version) × (w : s.Version) × (s.parse_version current ≡ some v)
    × (s.parse_version candidate ≡ some w)
    × (s.cmp w v ≡ Ordering.lt)

module _ (s : Semver) (c : Contract) where
  -- The test finds a downgrade exactly where a version is older.
  pub is_downgrade_iff :
      (current candidate : Text)
      → (is_downgrade s c current candidate ≡ true) ↔ IsOlder s current candidate
  unfolding is_downgrade
  is_downgrade_iff current candidate = (to, from)
    where
      lower : (o : Ordering) → elim o [ Ordering.lt ↦ true | _ ↦ false ] ≡ true → o ≡ Ordering.lt
      lower Ordering.lt h = refl
      lower Ordering.eq h = cc (h)
      lower Ordering.gt h = cc (h)

      to : is_downgrade s c current candidate ≡ true → IsOlder s current candidate
      to h = elim (Option-cases (s.parse_version current)) [
        | inl e ↦ absurd (cc (rw (e, is_downgrade) at h))
        | inr (v, e) ↦ elim (Option-cases (s.parse_version candidate)) [
          | inl f ↦ absurd (cc (rw (e, is_downgrade, f) at h))
          | inr (w, f) ↦ (v, w, e, f, lower (s.cmp w v) (rw (e, is_downgrade, f) at h))
        ]
      ]

      from : IsOlder s current candidate → is_downgrade s c current candidate ≡ true
      from (v, w, e, f, l) = rw (e, is_downgrade, f, l) refl

  kept_or_newer :
      (gate : Gate s c) (dir : FilePath) (r : ExtensionRuntime s c)
      (x : Outcome RuntimeError (Unit {0}) × ExtensionRuntime s c)
      → Reloaded s c gate dir r x
      → (id : Text) (prev : LoadedExtension s c) → find_id s c id r.loaded ≡ some prev
      → (now : LoadedExtension s c) × (find_id s c id x.1.loaded ≡ some now)
        × ((now ≡ prev) ⊎ (is_downgrade s c prev.version now.version ≡ false))
  kept_or_newer gate dir r _ (rejected e bad) id prev h = (prev, h, inl refl)
  kept_or_newer gate dir r _ (downgraded ext old loads found older) id prev h = (prev, h, inl refl)
  kept_or_newer gate dir r _ (unreadable ext e loads bad) id prev h = (prev, h, inl refl)
  kept_or_newer gate dir r _ (newly_loaded ext reg loads absent good) id prev h =
      elim (Bool-cases (text_eq ext.id id)) [
        | inl same ↦ absurd (cc ((text_eq_iff ext.id id).0 same, absent, h))
        | inr other ↦ (prev, rw (find_id-insert_id s c id ext.id ext r.loaded, other) h, inl refl)
      ]
  kept_or_newer gate dir r _ (exchanged ext old reg loads found newer good) id prev h =
      elim (Bool-cases (text_eq ext.id id)) [
        | inl same ↦
            let prev_old : old ≡ prev = cc ((text_eq_iff ext.id id).0 same, found, h) in
            (
              ext,
              rw (find_id-insert_id s c id ext.id ext r.loaded, same) refl,
              inr (subst (λ x. is_downgrade s c x.version ext.version ≡ false) prev_old newer),
            )
        | inr other ↦ (prev, rw (find_id-insert_id s c id ext.id ext r.loaded, other) h, inl refl)
      ]

  -- On a consistent state, an extension that is loaded is still loaded after a hot reload of any
  -- directory, and it is the same extension or one whose version is no downgrade.
  pub no_downgrade :
      (gate : Gate s c) (dir : FilePath) (r : ExtensionRuntime s c)
      → IsConsistent s c r
      → (id : Text) (prev : LoadedExtension s c) → find_id s c id r.loaded ≡ some prev
      → (now : LoadedExtension s c) × (find_id s c id
            (handle_added_or_modified s c gate dir r).1.loaded
          ≡ some now)
        × ((now ≡ prev) ⊎ (is_downgrade s c prev.version now.version ≡ false))
  no_downgrade gate dir r v id prev h =
      kept_or_newer gate dir r _ (handle_added_or_modified-Reloaded s c gate dir r v) id prev h
