-- ===== src/Runtime/Invariant.antt =====
-- The invariant of the runtime's state, and that each edit of the loaded map keeps it.
use greentic_designer_extens.Base.{
  ◌≡◌, refl, inl, inr, Bool, none, some, [], ◌∷◌, All, arith, Text, Bool-cases, keep, text_eq,
  text_eq_iff, if◌then◌else◌,
}
use greentic_designer_extens.Base.Outcome.{Outcome, ok, err}
use greentic_designer_extens.Capability.Contract.{Semver, Contract}
use greentic_designer_extens.Capability.Registry.{CapabilityRegistry}
use greentic_designer_extens.Runtime.Defs.{
  RuntimeError, LoadedExtension, Loaded, ExtensionRuntime, start, find_id, insert_id, rebuild_from,
  rebuild_registry, mutate_loaded,
}
use greentic_designer_extens.Runtime.Advertised.{outcome_cases}

module _ (s : Semver) (c : Contract) where
  -- No id is loaded twice.
  abbrev pub Distinct : Loaded s c → Type 0
  Distinct [] = Unit
  Distinct ((id, ext) ∷ loaded) = (find_id s c id loaded ≡ none) × Distinct loaded

  -- The registry is the one that the loaded map derives, and each extension stands once, at its id.
  pub record IsConsistent (r : ExtensionRuntime s c) : Type 0 where
    pub derived : rebuild_registry s c r.loaded ≡ ok r.capability_registry
    pub distinct : Distinct r.loaded
    pub keyed : All (λ e. e.0 ≡ e.1.id) r.loaded

  pub start-IsConsistent : IsConsistent (start s c)
  unfolding start rebuild_registry rebuild_from
  start-IsConsistent = record { derived = refl; distinct = tt; keyed = tt }

  pub find_id-insert_id :
      (j k : Text) (e : LoadedExtension s c) (m : Loaded s c)
      → find_id s c j (insert_id s c k e m) ≡ (if text_eq k j then some e else find_id s c j m)
  unfolding find_id insert_id
  find_id-insert_id j k e [] = refl
  find_id-insert_id j k e ((i, w) ∷ m) =
      ground (arith, text_eq_iff k j, text_eq_iff i k, text_eq_iff i j, find_id-insert_id j k e m)

  pub find_id-keep-none :
      (p : Text × LoadedExtension s c → Bool) (k : Text) (m : Loaded s c)
      → find_id s c k m ≡ none
      → find_id s c k (keep p m) ≡ none
  unfolding find_id
  find_id-keep-none p k [] h = refl
  find_id-keep-none p k (e ∷ m) h = ground (arith, find_id-keep-none p k m)

  pub keep-Distinct :
      (p : Text × LoadedExtension s c → Bool) (m : Loaded s c) → Distinct m → Distinct (keep p m)
  keep-Distinct p [] h = tt
  keep-Distinct p (e ∷ m) h = elim (Bool-cases (p e)) [
    | inl kept ↦ rw kept (find_id-keep-none p e.0 m h.0, keep-Distinct p m h.1)
    | inr dropped ↦ rw dropped (keep-Distinct p m h.1)
  ]

  pub keep-All {κ} :
      (P : Text × LoadedExtension s c → Type κ) (p : Text × LoadedExtension s c → Bool)
      (m : Loaded s c)
      → All P m
      → All P (keep p m)
  keep-All P p [] h = tt
  keep-All P p (e ∷ m) h = elim (Bool-cases (p e)) [
    | inl kept ↦ rw kept (h.0, keep-All P p m h.1)
    | inr dropped ↦ rw dropped (keep-All P p m h.1)
  ]

  pub insert_id-Distinct :
      (k : Text) (e : LoadedExtension s c) (m : Loaded s c)
      → Distinct m
      → Distinct (insert_id s c k e m)
  unfolding insert_id find_id
  insert_id-Distinct k e [] h = (refl, tt)
  insert_id-Distinct k e ((j, w) ∷ m) h = elim (Bool-cases (text_eq j k)) [
    | inl same ↦ rw same h
    | inr other ↦ rw other (
      ground (arith, find_id-insert_id j k e m, text_eq_iff j k, text_eq_iff k j, h.0),
      insert_id-Distinct k e m h.1,
    )
  ]

  pub insert_id-keyed :
      (e : LoadedExtension s c) (m : Loaded s c)
      → All (λ x. x.0 ≡ x.1.id) m
      → All (λ x. x.0 ≡ x.1.id) (insert_id s c e.id e m)
  unfolding insert_id
  insert_id-keyed e [] h = (refl, tt)
  insert_id-keyed e ((j, w) ∷ m) h = elim (Bool-cases (text_eq j e.id)) [
    | inl same ↦ rw same ((text_eq_iff j e.id).0 same, h.1)
    | inr other ↦ rw other (h.0, insert_id-keyed e m h.1)
  ]

  -- One edit: it fails and changes nothing, or it stores the edited map and the registry rebuilt from it.
  pub mutate_loaded_cases {ℓ} :
      {T : Type 0} (C : Outcome RuntimeError T × ExtensionRuntime s c → Type ℓ)
      (edit : Loaded s c → T × Loaded s c) (r : ExtensionRuntime s c)
      → ((e : RuntimeError) → rebuild_registry s c (edit r.loaded).1 ≡ err e → C (err e, r))
      → ((reg : CapabilityRegistry s c)
          → rebuild_registry s c (edit r.loaded).1 ≡ ok reg
          → C (
            ok (edit r.loaded).0,
            record r { loaded = (edit r.loaded).1; capability_registry = reg },
          ))
      → C (mutate_loaded s c edit r)
  unfolding mutate_loaded
  mutate_loaded_cases C edit r bad good =
      elim (outcome_cases s c (rebuild_registry s c (edit r.loaded).1)) [
        | inl (e, h) ↦ rw (h, mutate_loaded) (bad e h)
        | inr (reg, h) ↦ rw (h, mutate_loaded) (good reg h)
      ]

  -- An edit that leaves a consistent map leaves the state consistent.
  pub mutate_loaded-IsConsistent :
      {T : Type 0} (edit : Loaded s c → T × Loaded s c) (r : ExtensionRuntime s c)
      → IsConsistent r
      → Distinct (edit r.loaded).1
      → All (λ e. e.0 ≡ e.1.id) (edit r.loaded).1
      → IsConsistent (mutate_loaded s c edit r).1
  mutate_loaded-IsConsistent edit r v d k =
      mutate_loaded_cases (λ x. IsConsistent x.1) edit r (λ e h. v)
        (λ reg h. record { derived = h; distinct = d; keyed = k })
