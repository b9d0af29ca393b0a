-- ===== src/Watch/Locate.antt =====
-- Which directory a changed path is taken to belong to.
use greentic_designer_extens.Base.{
  ◌≡◌, refl, subst, ◌↔◌, inl, inr, true, List, [], ◌∷◌, Memᴰ, arith, Text, codes, Bool-cases,
  text_eq, text_eq_iff, any, any_found, any_of_mem, ◌≢◌,
}
use greentic_designer_extens.Capability.Contract.{Semver, Contract}
use greentic_designer_extens.Runtime.Defs.{FilePath, path_eq}
use greentic_designer_extens.Watch.Defs.{is_known_kind_dir, names_kind, is_extension_dir, file_name}

pub path_eq_iff : (p q : FilePath) → (path_eq p q ≡ true) ↔ (p ≡ q)
path_eq_iff [] [] = ground arith
path_eq_iff [] (d ∷ q) = ground arith
path_eq_iff (x ∷ p) [] = ground arith
path_eq_iff (x ∷ p) (d ∷ q) = ground (arith, path_eq_iff p q, text_eq_iff x d)

module _ (s : Semver) (c : Contract) where
  open c use {ExtensionKind, all_kinds, dir_name, describe_entry_name}

  -- `<root>/<kind>/<name>`, for a root of the list and a kind of the contract.
  pub record IsExtensionDir (roots : List FilePath) (dir : FilePath) : Type 0 where
    pub name : Text
    pub kind : ExtensionKind
    pub root : FilePath
    pub known : Memᴰ kind all_kinds
    pub plain : dir_name kind ≢ codes ".."
    pub configured : Memᴰ root roots
    pub shape : dir ≡ name ∷ dir_name kind ∷ root

  names_kind_iff :
      (y : Text) (root : FilePath)
      → (names_kind s c (file_name (y ∷ root)) ≡ true)
        ↔ ((y ≢ codes "..") × ((k : ExtensionKind) × Memᴰ k all_kinds × (dir_name k ≡ y)))
  unfolding names_kind is_known_kind_dir
  names_kind_iff y root = (to, from)
    where
      to :
          names_kind s c (file_name (y ∷ root)) ≡ true
          → (y ≢ codes "..") × ((k : ExtensionKind) × Memᴰ k all_kinds × (dir_name k ≡ y))
      to h = elim (Bool-cases (text_eq y (codes ".."))) [
        | inl dots ↦ absurd (cc (rw (dots, names_kind) at h))
        | inr plain ↦
            let (k, i, e) =
              any_found (λ k. text_eq (dir_name k) y) all_kinds (rw (plain, names_kind) at h) in
            (λ dots. cc (plain, (text_eq_iff y (codes "..")).1 dots), (k, i, (text_eq_iff _ _).0 e))
      ]

      from :
          (y ≢ codes "..") × ((k : ExtensionKind) × Memᴰ k all_kinds × (dir_name k ≡ y))
          → names_kind s c (file_name (y ∷ root)) ≡ true
      from (plain, (k, i, e)) = elim (Bool-cases (text_eq y (codes ".."))) [
        | inl dots ↦ absurd (plain ((text_eq_iff y (codes "..")).0 dots))
        | inr other ↦
            rw (other, names_kind)
              (any_of_mem (λ k. text_eq (dir_name k) y) k all_kinds i ((text_eq_iff _ _).1 e))
      ]

  pub is_extension_dir_iff :
      (roots : List FilePath) (dir : FilePath)
      → (is_extension_dir s c roots dir ≡ true) ↔ IsExtensionDir roots dir
  unfolding is_extension_dir
  is_extension_dir_iff roots [] = (λ h. cc (h), λ d. absurd (cc (d.shape)))
  is_extension_dir_iff roots (x ∷ []) = (λ h. cc (h), λ d. absurd (cc (d.shape)))
  is_extension_dir_iff roots (x ∷ y ∷ root) = (to, from)
    where
      to : is_extension_dir s c roots (x ∷ y ∷ root) ≡ true → IsExtensionDir roots (x ∷ y ∷ root)
      to h = elim (Bool-cases (any (λ r. path_eq r root) roots)) [
        | inr foreign ↦ absurd (cc (rw foreign at h))
        | inl found ↦
            let (r, i, e) = any_found (λ r. path_eq r root) roots found in
            let (plain, (k, known, same)) = (names_kind_iff y root).0 (rw found at h) in
            record {
              name = x;
              kind = k;
              root = root;
              known = known;
              plain = rw same plain;
              configured = subst (λ q. Memᴰ q roots) ((path_eq_iff r root).0 e) i;
              shape = rw same refl;
            }
      ]

      from : IsExtensionDir roots (x ∷ y ∷ root) → is_extension_dir s c roots (x ∷ y ∷ root) ≡ true
      from d =
          let y_kind : dir_name d.kind ≡ y = cc (d.shape) in
          let at_root : d.root ≡ root = cc (d.shape) in
          let found =
            any_of_mem (λ r. path_eq r root) d.root roots d.configured
              ((path_eq_iff _ _).1 at_root) in
          rw found ((names_kind_iff y root).1 (rw (← y_kind) d.plain, (d.kind, d.known, y_kind)))
