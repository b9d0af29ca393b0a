-- ===== src/Watch/Walk.antt =====
-- The walk from a changed path up to the directory that owns it.
use greentic_designer_extens.Base.{
  ◌≤◌, ◌≡◌, refl, sym, subst, ◌↔◌, ◌⊎◌, inl, inr, true, Option, none, some, List, [], ◌∷◌, arith,
  Text, length, Bool-cases,
}
use greentic_designer_extens.Capability.Contract.{Semver, Contract}
use greentic_designer_extens.Runtime.Defs.{FilePath}
use greentic_designer_extens.Watch.Defs.{FileSystem, is_extension_dir, find_extension_dir}
use greentic_designer_extens.Watch.Locate.{IsExtensionDir, is_extension_dir_iff}

-- A path is the other, or one of its parents.
pub data Above (d : FilePath) : FilePath → Type 0 where
  self : Above d d
  below : (x : Text) (p : FilePath) → Above d p → Above d (x ∷ p)

pub Above-le : (d p : FilePath) → Above d p → length d ≤ length p
Above-le d _ self = omega arith
Above-le d _ (below x p a) = omega (arith, Above-le d p a)

too_long : (d p : FilePath) (x : Text) → Above d p → length d ≡ length (x ∷ p) → ⊥
too_long d p x a e = omega (arith, Above-le d p a)

same_length : (d q p : FilePath) → Above d p → Above q p → length d ≡ length q → d ≡ q
same_length d q _ self self e = refl
same_length d q _ self (below x p a) e = absurd (too_long q p x a (sym e))
same_length d q _ (below x p a) self e = absurd (too_long d p x a e)
same_length d q _ (below x p a) (below _ _ b) e = same_length d q p a b e

module _ (s : Semver) (c : Contract) where
  open c use {describe_entry_name}

  -- The directory is the path or above it, has a description, and is an extension's directory.
  pub record Owns (fs : FileSystem) (roots : List FilePath) (d p : FilePath) : Type 0 where
    pub above : Above d p
    pub described : fs.exists (describe_entry_name ∷ d) ≡ true
    pub is_dir : IsExtensionDir s c roots d

  module _ (fs : FileSystem) (roots : List FilePath) where
    -- One step of the walk.
    walk_cases {ℓ} :
        (C : Option FilePath → Type ℓ) (x : Text) (p : FilePath)
        → (Owns fs roots (x ∷ p) (x ∷ p) → C (some (x ∷ p)))
        → ((Owns fs roots (x ∷ p) (x ∷ p) → ⊥) → C (find_extension_dir s c fs roots p))
        → C (find_extension_dir s c fs roots (x ∷ p))
    unfolding find_extension_dir
    walk_cases C x p hit miss = elim (Bool-cases (fs.exists (describe_entry_name ∷ x ∷ p))) [
      | inr bare ↦ rw bare (miss (λ o. cc (bare, o.described)))
      | inl there ↦ elim (Bool-cases (is_extension_dir s c roots (x ∷ p))) [
        | inl is ↦
            rw (there, is)
              (hit (record {
                above = self;
                described = there;
                is_dir = (is_extension_dir_iff s c roots (x ∷ p)).0 is;
              }))
        | inr other ↦
            rw (there, other)
              (miss (λ o. cc (other, (is_extension_dir_iff s c roots (x ∷ p)).1 o.is_dir)))
      ]
    ]

    find_root : find_extension_dir s c fs roots [] ≡ none
    unfolding find_extension_dir is_extension_dir
    find_root = ground arith

    -- Among the directories that own the path, it is the deepest.
    abbrev pub Nearest : FilePath → FilePath → Type 0
    Nearest d p = (q : FilePath) → Owns fs roots q p → length q ≤ length d

    raise : (d p : FilePath) (x : Text) → Owns fs roots d p → Owns fs roots d (x ∷ p)
    raise d p x o = record { above = below x p o.above; described = o.described; is_dir = o.is_dir }

    lower :
        (q p : FilePath) (x : Text)
        → Owns fs roots q (x ∷ p)
        → Owns fs roots (x ∷ p) (x ∷ p) ⊎ Owns fs roots q p
    lower q p x o = from q o.above o.described o.is_dir
      where
        from :
            (q : FilePath)
            → Above q (x ∷ p)
            → fs.exists (describe_entry_name ∷ q) ≡ true
            → IsExtensionDir s c roots q
            → Owns fs roots (x ∷ p) (x ∷ p) ⊎ Owns fs roots q p
        from _ self e i = inl (record { above = self; described = e; is_dir = i })
        from q (below _ _ a) e i = inr (record { above = a; described = e; is_dir = i })

    hit_sound :
        (x : Text) (p d : FilePath)
        → Owns fs roots (x ∷ p) (x ∷ p)
        → some (x ∷ p) ≡ some d
        → Owns fs roots d (x ∷ p) × Nearest d (x ∷ p)
    hit_sound x p d o e =
        let same : x ∷ p ≡ d = cc (e) in
        subst (λ w. Owns fs roots w (x ∷ p) × Nearest w (x ∷ p)) same
          (o, λ q b. Above-le q (x ∷ p) b.above)

    miss_sound :
        (x : Text) (p d : FilePath)
        → Owns fs roots d p × Nearest d p
        → (Owns fs roots (x ∷ p) (x ∷ p) → ⊥)
        → Owns fs roots d (x ∷ p) × Nearest d (x ∷ p)
    miss_sound x p d (o, nearest) none_here = (
      raise d p x o,
      λ q b. elim (lower q p x b) [
        | inl own ↦ absurd (none_here own)
        | inr there ↦ nearest q there
      ],
    )

    find_extension_dir_sound :
        (p d : FilePath)
        → find_extension_dir s c fs roots p ≡ some d
        → Owns fs roots d p × Nearest d p
    find_extension_dir_sound [] d h = absurd (cc (find_root, h))
    find_extension_dir_sound (x ∷ p) d h =
        walk_cases (λ o. o ≡ some d → Owns fs roots d (x ∷ p) × Nearest d (x ∷ p)) x p
          (hit_sound x p d)
          (λ none_here e. miss_sound x p d (find_extension_dir_sound p d e) none_here) h

    no_root : (q : FilePath) → Above q [] → IsExtensionDir s c roots q → ⊥
    no_root _ self i = cc (i.shape)

    find_extension_dir_found :
        (p q : FilePath)
        → Owns fs roots q p
        → (d : FilePath) × (find_extension_dir s c fs roots p ≡ some d)
    find_extension_dir_found [] q o = absurd (no_root q o.above o.is_dir)
    find_extension_dir_found (x ∷ p) q o =
        walk_cases (λ w. (d : FilePath) × (w ≡ some d)) x p (λ own. (x ∷ p, refl))
          (λ none_here. elim (lower q p x o) [
            | inl own ↦ absurd (none_here own)
            | inr there ↦ find_extension_dir_found p q there
          ])

    -- A changed path is taken to belong to a directory exactly when the directory is the path or above
    -- it, has a description, stands as a name in a kind's directory of a configured root, and no deeper
    -- directory does.
    pub find_extension_dir_iff :
        (p d : FilePath)
        → (find_extension_dir s c fs roots p ≡ some d) ↔ (Owns fs roots d p × Nearest d p)
    find_extension_dir_iff p d = (find_extension_dir_sound p d, from)
      where
        from : Owns fs roots d p × Nearest d p → find_extension_dir s c fs roots p ≡ some d
        from (o, nearest) =
            let (w, e) = find_extension_dir_found p d o in
            let (b, deepest) = find_extension_dir_sound p w e in
            let same =
              same_length w d p b.above o.above (omega (arith, nearest w b, deepest d o)) in
            rw (← same) e
