-- ===== src/Watch/Vanished.antt =====
-- The sweep for vanished directories unloads exactly the extensions whose directory is gone.
use greentic_designer_extens.Base.{
  ◌≡◌, refl, sym, ap, ◌∙◌, inl, inr, Bool, true, false, not, ◌&&◌, none, some, List, [], ◌∷◌, Memᴰ,
  arith, Text, Bool-cases, keep, text_eq, text_eq_iff, text_eq_refl, if◌then◌else◌, any, any_found,
  any_of_mem, mem-collect, mem-collect_of,
}
use greentic_designer_extens.Capability.Contract.{Semver, Contract}
use greentic_designer_extens.Runtime.Defs.{
  LoadedExtension, Loaded, ExtensionRuntime, find_id, without_id, evict,
}
use greentic_designer_extens.Runtime.Invariant.{Distinct, IsConsistent}
use greentic_designer_extens.Runtime.Evictions.{evict_lem, evict-IsConsistent}
use greentic_designer_extens.Watch.Defs.{
  FileSystem, has_vanished, vanished_ids, evict_all, evict_vanished_extensions,
}

module _ {A : Type 0} where
  keep-keep : (p q : A → Bool) (m : List A) → keep p (keep q m) ≡ keep (λ e. q e && p e) m
  keep-keep p q [] = refl
  keep-keep p q (e ∷ m) = ground (arith, keep-keep p q m)

  keep_cong : (p q : A → Bool) (m : List A) → ((e : A) → Memᴰ e m → p e ≡ q e) → keep p m ≡ keep q m
  keep_cong p q [] h = refl
  keep_cong p q (e ∷ m) h =
      rw (h e (Memᴰ.head refl), keep_cong p q m (λ x i. h x (Memᴰ.tail i))) refl

  keep_all : (m : List A) → keep (λ e. true) m ≡ m
  keep_all [] = refl
  keep_all (e ∷ m) = ap (λ t. e ∷ t) (keep_all m)

module _ (s : Semver) (c : Contract) where
  pub find_id-mem :
      (m : Loaded s c) (e : Text × LoadedExtension s c)
      → Distinct s c m
      → Memᴰ e m
      → find_id s c e.0 m ≡ some e.1
  unfolding find_id
  find_id-mem [] e d i = elim i [ ]
  find_id-mem (x ∷ m) e d (Memᴰ.head same) = rw (same, text_eq_refl x.0) refl
  find_id-mem (x ∷ m) e d (Memᴰ.tail i) = elim (Bool-cases (text_eq x.0 e.0)) [
    | inl same ↦ absurd (cc ((text_eq_iff x.0 e.0).0 same, d.0, find_id-mem m e d.1 i))
    | inr other ↦ rw other (find_id-mem m e d.1 i)
  ]

  pub mem-find_id :
      (m : Loaded s c) (id : Text) (x : LoadedExtension s c)
      → find_id s c id m ≡ some x
      → Memᴰ (id, x) m
  unfolding find_id
  mem-find_id [] id x h = cc (h)
  mem-find_id ((j, y) ∷ m) id x h = elim (Bool-cases (text_eq j id)) [
    | inl same ↦
        let e : y ≡ x = cc (rw same at h) in
        Memᴰ.head (ap2 (sym ((text_eq_iff j id).0 same)) (sym e))
    | inr other ↦ Memᴰ.tail (mem-find_id m id x (rw other at h))
  ]
    where
      ap2 :
          {a b : Text} {u v : LoadedExtension s c}
          → a ≡ b
          → u ≡ v
          → ◌≡◌ {A = Text × LoadedExtension s c} (a, u) (b, v)
      ap2 p q = rw (p, q) refl

  listed : List Text → Text × LoadedExtension s c → Bool
  listed ids e = any (λ id. text_eq e.0 id) ids

  evict_all-loaded :
      (ids : List Text) (r : ExtensionRuntime s c)
      → IsConsistent s c r
      → (evict_all s c ids r).loaded ≡ keep (λ e. not (listed ids e)) r.loaded
  unfolding evict_all listed without_id
  evict_all-loaded [] r v = sym (keep_all r.loaded)
  evict_all-loaded (id ∷ ids) r v =
      evict_all-loaded ids (evict s c id r) (evict-IsConsistent s c id r v)
      ∙ (ap (λ m. keep (λ e. not (listed ids e)) m) (evict_lem s c id r v).0
          ∙ (keep-keep (λ e. not (listed ids e)) (λ e. not (text_eq e.0 id)) r.loaded
              ∙ keep_cong _ _ r.loaded (λ e i. ground arith)))

  clash :
      (fs : FileSystem) (m : Loaded s c) (e x : Text × LoadedExtension s c) (id : Text)
      → Distinct s c m
      → Memᴰ e m
      → Memᴰ x m
      → has_vanished fs e.1.source_dir ≡ false
      → e.0 ≡ id
      → (if has_vanished fs x.1.source_dir then some x.0 else none) ≡ some id
      → ⊥
  clash fs m e x id d i k there same from = elim (Bool-cases (has_vanished fs x.1.source_dir)) [
    | inr there' ↦ cc (rw there' at from)
    | inl gone ↦
        let at_id : x.0 ≡ id = cc (rw gone at from) in
        let one : x.1 ≡ e.1 = cc (at_id, same, find_id-mem m e d i, find_id-mem m x d k) in
        cc (there, rw one at gone)
  ]

  -- An extension is among the vanished ids exactly when its own directory has vanished.
  listed_vanished :
      (fs : FileSystem) (m : Loaded s c)
      → Distinct s c m
      → (e : Text × LoadedExtension s c) → Memᴰ e m
      → listed (vanished_ids s c fs m) e ≡ has_vanished fs e.1.source_dir
  unfolding listed vanished_ids
  listed_vanished fs m d e i = elim (Bool-cases (has_vanished fs e.1.source_dir)) [
    | inl gone ↦ rw gone (
        any_of_mem (λ id. text_eq e.0 id) e.0 (vanished_ids s c fs m)
          (mem-collect_of _ e e.0 m i (rw gone refl)) (text_eq_refl e.0))
    | inr there ↦ rw there (elim (Bool-cases (listed (vanished_ids s c fs m) e)) [
      | inr no_hit ↦ no_hit
      | inl hit ↦
          let (id, j, same) = any_found (λ id. text_eq e.0 id) (vanished_ids s c fs m) hit in
          let (x, k, from) = mem-collect _ id m j in
          absurd (clash fs m e x id d i k there ((text_eq_iff e.0 id).0 same) from)
    ])
  ]

  -- On a consistent state, the sweep leaves loaded exactly the extensions whose directory has not vanished,
  -- whatever other extensions it evicts.
  pub evict_vanished_lem :
      (fs : FileSystem) (r : ExtensionRuntime s c)
      → IsConsistent s c r
      → (evict_vanished_extensions s c fs r).loaded
        ≡ keep (λ e. not (has_vanished fs e.1.source_dir)) r.loaded
  unfolding evict_vanished_extensions
  evict_vanished_lem fs r v =
      evict_all-loaded (vanished_ids s c fs r.loaded) r v
      ∙ keep_cong _ _ r.loaded (λ e i. ap not (listed_vanished fs r.loaded v.distinct e i))

  pub evict_all-IsConsistent :
      (ids : List Text) (r : ExtensionRuntime s c)
      → IsConsistent s c r
      → IsConsistent s c (evict_all s c ids r)
  unfolding evict_all
  evict_all-IsConsistent [] r v = v
  evict_all-IsConsistent (id ∷ ids) r v =
      evict_all-IsConsistent ids (evict s c id r) (evict-IsConsistent s c id r v)
