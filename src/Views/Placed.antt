-- ===== src/Views/Placed.antt =====
-- Where the files of a view are.
use greentic_designer_extens.Base.{
  ℕ, false, any, any_of_mem, text_eq, text_eq_complete, ◌==◌, ◌≡◌, refl, ap, ◌∙◌, subst, inl, inr,
  some, List, [], ◌∷◌, ◌++◌, Text, codes, All, split_on, Option-cases,
}
use greentic_designer_extens.Base.Outcome.{Outcome-cases, ok}
use greentic_designer_extens.Capability.Contract.{Semver, Contract}
use greentic_designer_extens.Runtime.Defs.{FilePath, LoadedExtension, ExtensionRuntime, lookup}
use greentic_designer_extens.Verify.Defs.{
  components_of, later_components, join_normal, pack_relative_path,
}
use greentic_designer_extens.Verify.Paths.{
  IsName, IsUnder, Joined, split_on-NoSlash, later_Good, join_normal-Joined,
  pack_relative_path-IsUnder,
}
use greentic_designer_extens.Verify.Spelled.{slashed, descend, pack_relative_path-slashed}
use greentic_designer_extens.Views.Defs.{
  ViewTypes, View, ViewDefinition, pack_relative, definition_of, view_to_definition, definitions_of,
  list_views,
}

-- The directory of all views of an extension.
abbrev pub views_dir : FilePath → FilePath
views_dir source_dir = codes "views" ∷ codes "assets" ∷ source_dir

plain_IsName :
    (b : ℕ) (n : Text)
    → text_eq (b ∷ n) (codes ".") ≡ false
    → text_eq (b ∷ n) (codes "..") ≡ false
    → any (λ x. x == b'/') (b ∷ n) ≡ false
    → IsName (b ∷ n)
plain_IsName b n e d f = record {
  inhabited = λ h. cc;
  no_dot = λ h. cc (e, text_eq_complete (b ∷ n) _ h);
  no_dots = λ h. cc (d, text_eq_complete (b ∷ n) _ h);
  no_slash = λ i. cc (f, any_of_mem (λ x. x == b'/') b'/' (b ∷ n) i refl);
}

pub assets_IsName : IsName (codes "assets")
assets_IsName = plain_IsName b'a' (codes "ssets") refl refl refl

pub views_IsName : IsName (codes "views")
views_IsName = plain_IsName b'v' (codes "iews") refl refl refl

asset_Joined :
    (dir : FilePath) (id : Text) (p : FilePath)
    → pack_relative_path dir (codes "assets/views/" ++ id) ≡ some p
    → Joined (views_dir dir) p
unfolding pack_relative_path components_of join_normal split_on
asset_Joined dir id p h =
    join_normal-Joined (views_dir dir) (later_components (split_on b'/' id)) p
      (later_Good (split_on b'/' id) (split_on-NoSlash id)) h

module _ (types : ViewTypes) where
  pack_relative_ok :
      (id : Text) (dir : FilePath) (rel : Text) (p : FilePath)
      → pack_relative types id dir rel ≡ ok p
      → pack_relative_path dir rel ≡ some p
  unfolding pack_relative
  pack_relative_ok id dir rel p h = elim (Option-cases (pack_relative_path dir rel)) [
    | inl bad ↦ absurd (cc (rw (bad, pack_relative) at h))
    | inr (q, good) ↦ let same : q ≡ p = cc (rw (good, pack_relative) at h) in good ∙ ap some same
  ]

  -- The definition of a view: what it declares, its assets in the directory of all views or below it,
  -- and its entry below its assets.
  pub record IsPlaced (source_dir : FilePath) (v : View types) (d : ViewDefinition types)
      : Type 0 where
    pub declared : d ≡ definition_of types v d.asset_dir d.entry_path
    pub assets : Joined (views_dir source_dir) d.asset_dir
    pub entry : IsUnder d.asset_dir d.entry_path

  view_to_definition-IsPlaced :
      (v : View types) (source_dir : FilePath) (d : ViewDefinition types)
      → view_to_definition types v source_dir ≡ ok d
      → IsPlaced source_dir v d
  unfolding view_to_definition
  view_to_definition-IsPlaced v source_dir d h =
      elim (Outcome-cases (pack_relative types v.id source_dir (codes "assets/views/" ++ v.id))) [
        | inl (e, bad) ↦ absurd (cc (rw (bad, view_to_definition) at h))
        | inr (dir, assets) ↦ elim (Outcome-cases (pack_relative types v.id dir v.entry)) [
          | inl (e, bad) ↦ absurd (cc (rw (assets, view_to_definition, bad) at h))
          | inr (path, entry) ↦
              let same : definition_of types v dir path ≡ d =
                cc (rw (assets, view_to_definition, entry) at h) in
              subst (IsPlaced source_dir v) same (record {
                declared = refl;
                assets =
                    asset_Joined source_dir v.id dir
                      (pack_relative_ok v.id source_dir (codes "assets/views/" ++ v.id) dir assets);
                entry =
                    pack_relative_path-IsUnder dir v.entry path
                      (pack_relative_ok v.id dir v.entry path entry);
              })
        ]
      ]

  -- One definition for each view, in order.
  abbrev pub EachPlaced : FilePath → List (View types) → List (ViewDefinition types) → Type 0
  EachPlaced dir [] [] = Unit
  EachPlaced dir [] (d ∷ ds) = ⊥
  EachPlaced dir (v ∷ vs) [] = ⊥
  EachPlaced dir (v ∷ vs) (d ∷ ds) = IsPlaced dir v d × EachPlaced dir vs ds

  definitions_of-EachPlaced :
      (dir : FilePath) (vs : List (View types)) (ds : List (ViewDefinition types))
      → definitions_of types dir vs ≡ ok ds
      → EachPlaced dir vs ds
  unfolding definitions_of
  definitions_of-EachPlaced dir [] ds h =
      let same : [] ≡ ds = cc (h) in subst (EachPlaced dir []) same tt
  definitions_of-EachPlaced dir (v ∷ vs) ds h =
      elim (Outcome-cases (view_to_definition types v dir)) [
        | inl (e, bad) ↦ absurd (cc (rw (bad, definitions_of) at h))
        | inr (d, good) ↦ elim (Outcome-cases (definitions_of types dir vs)) [
          | inl (e, bad) ↦ absurd (cc (rw (good, definitions_of, bad) at h))
          | inr (rest, goods) ↦
              let same : d ∷ rest ≡ ds = cc (rw (good, definitions_of, goods) at h) in
              subst (EachPlaced dir (v ∷ vs)) same (
                view_to_definition-IsPlaced v dir d good,
                definitions_of-EachPlaced dir vs rest goods,
              )
        ]
      ]

  -- A view whose id is a name and whose entry is names with slashes between them is placed there.
  pub view_to_definition_lem :
      (v : View types) (source_dir : FilePath) (n : Text) (names : List Text)
      → IsName v.id
      → All IsName (n ∷ names)
      → v.entry ≡ slashed (n ∷ names)
      → view_to_definition types v source_dir
        ≡ ok (
            definition_of types v
              (v.id ∷ views_dir source_dir)
              (descend (v.id ∷ views_dir source_dir) (n ∷ names)))
  unfolding view_to_definition pack_relative
  view_to_definition_lem v source_dir n names id entry e =
      rw
        (
          pack_relative_path-slashed source_dir (codes "assets") (codes "views" ∷ v.id ∷ [])
              (assets_IsName, (views_IsName, (id, tt))),
          view_to_definition,
          pack_relative,
          ap (pack_relative_path (v.id ∷ views_dir source_dir)) e
              ∙ pack_relative_path-slashed (v.id ∷ views_dir source_dir) n names entry,
        )
        refl

  module _ (s : Semver) (c : Contract) (views_of : LoadedExtension s c → List (View types)) where
    -- If the views of an extension are listed, then it is loaded, and there is one definition for each
    -- view that it declares, in order, with its assets in the extension's `assets/views` or below, and
    -- its entry below its assets, whatever ids and entries the description has.
    pub list_views-EachPlaced :
        (r : ExtensionRuntime s c) (ext_id : Text) (ds : List (ViewDefinition types))
        → list_views types s c views_of r ext_id ≡ ok ds
        → (ext : LoadedExtension s c) × (lookup s c r ext_id ≡ ok ext)
          × EachPlaced ext.source_dir (views_of ext) ds
    unfolding list_views
    list_views-EachPlaced r ext_id ds h = elim (Outcome-cases (lookup s c r ext_id)) [
      | inl (e, bad) ↦ absurd (cc (rw (bad, list_views) at h))
      | inr (ext, found) ↦ (
        ext,
        found,
        definitions_of-EachPlaced ext.source_dir (views_of ext) ds (rw (found, list_views) at h),
      )
    ]
