-- ===== src/Capability/Search.antt =====
-- One round of `dfs_has_cycle` and of its loops: how a search answers, and what it leaves.
use greentic_designer_extens.Base.{
  ℕ, suc, ◌≤◌, ◌<◌, ◌≡◌, refl, sym, subst, ap, ◌≢◌, ◌↔◌, inl, inr, Bool, true, false, Option, none,
  some, List, [], ◌∷◌, Memᴰ, All, arith, Text, text_eq, text_eq_iff, text_eq_refl, any, any_found,
  any_of_mem, length, Bool-cases, Option-cases, if◌then◌else◌,
}
use greentic_designer_extens.Capability.Contract.{Semver, Contract}
use greentic_designer_extens.Capability.Registry.{
  CapabilityRef, CapabilityRegistry, Extensions, reqs_of, targets, remove_id, visit, leave,
  dfs_has_cycle,
}

abbrev pub seen : Text → List Text → Bool
seen id visited = any (λ v. text_eq v id) visited

seen_iff : (id : Text) (visited : List Text) → (seen id visited ≡ true) ↔ Memᴰ id visited
seen_iff id visited = (to, λ i. any_of_mem (λ v. text_eq v id) id visited i (text_eq_refl id))
  where
    to : seen id visited ≡ true → Memᴰ id visited
    to h =
        let (v, i, e) = any_found (λ v. text_eq v id) visited h in
        subst (λ x. Memᴰ x visited) ((text_eq_iff v id).0 e) i

remove_id_unseen :
    (id : Text) (visited : List Text) → seen id visited ≡ false → remove_id id visited ≡ visited
unfolding remove_id
remove_id_unseen id [] h = refl
remove_id_unseen id (v ∷ visited) h = ground (arith, remove_id_unseen id visited)

-- Entering and leaving an extension that has not been seen restores the set.
pub remove_id-cons :
    (id : Text) (visited : List Text)
    → seen id visited ≡ false
    → remove_id id (id ∷ visited) ≡ visited
unfolding remove_id
remove_id-cons id visited h = rw (text_eq_refl id) (remove_id_unseen id visited h)

-- A search that fails leaves the set as it was.
abbrev pub Restores : (Text → List Text → Option (Bool × List Text)) → Type 0
Restores call = (t : Text) (v v' : List Text) → call t v ≡ some (false, v') → v' ≡ v

module _ (call : Text → List Text → Option (Bool × List Text)) (back : Restores call) where
  -- One round of the loop.
  visit_cases {ℓ} :
      (C : Option (Bool × List Text) → Type ℓ) (t : Text) (ts v : List Text)
      → (call t v ≡ none → C none)
      → ((v' : List Text) → call t v ≡ some (true, v') → C (some (true, v')))
      → (call t v ≡ some (false, v) → C (visit call ts v))
      → C (visit call (t ∷ ts) v)
  unfolding visit
  visit_cases C t ts v out hit miss = elim (Option-cases (call t v)) [
    | inl e ↦ rw (e, visit) (out e)
    | inr ((true, v'), e) ↦ rw (e, visit) (hit v' e)
    | inr ((false, v'), e) ↦
        rw (e, visit)
          (rw (back t v v' e) (miss (subst (λ x. call t v ≡ some (false, x)) (back t v v' e) e)))
  ]

  -- A loop that finds nothing has searched every target from the same set.
  pub visit_miss :
      (ts v v' : List Text)
      → visit call ts v ≡ some (false, v')
      → (v' ≡ v) × All (λ t. call t v ≡ some (false, v)) ts
  unfolding visit
  visit_miss [] v v' = λ h. (ground arith, tt)
  visit_miss (t ∷ ts) v v' =
      visit_cases
        (λ o. o ≡ some (false, v') → (v' ≡ v) × All (λ x. call x v ≡ some (false, v)) (t ∷ ts)) t ts
        v (λ _ h. cc (h)) (λ w _ h. cc (h))
        (λ e h. let (same, rest) = visit_miss ts v v' h in (same, (e, rest)))

  -- A loop that finds a cycle has found it from some target.
  pub visit_hit :
      (ts v v' : List Text)
      → visit call ts v ≡ some (true, v')
      → (t : Text) × Memᴰ t ts × ((w : List Text) × (call t v ≡ some (true, w)))
  unfolding visit
  visit_hit [] v v' = λ h. cc (h)
  visit_hit (t ∷ ts) v v' =
      visit_cases
        (λ o.
          o ≡ some (true, v')
          → (x : Text) × Memᴰ x (t ∷ ts) × ((w : List Text) × (call x v ≡ some (true, w))))
        t ts v (λ _ h. cc (h)) (λ w e h. (t, Memᴰ.head refl, (w, e)))
        (λ e h. let (x, i, f) = visit_hit ts v v' h in (x, Memᴰ.tail i, f))

  pub visit_total : (ts v : List Text) → ((t : Text) → call t v ≢ none) → visit call ts v ≢ none
  unfolding visit
  visit_total [] v h = λ e. cc (e)
  visit_total (t ∷ ts) v h =
      visit_cases (λ o. o ≢ none) t ts v (λ e. absurd (h t e)) (λ w _ e. cc (e))
        (λ _. visit_total ts v h)

pub leave-ne-none : (id : Text) (o : Option (Bool × List Text)) → o ≢ none → leave id o ≢ none
unfolding leave
leave-ne-none id none h e = h e
leave-ne-none id (some (true, v)) h e = cc
leave-ne-none id (some (false, v)) h e = cc

pub leave_hit :
    (id : Text) (o : Option (Bool × List Text)) (v : List Text)
    → leave id o ≡ some (true, v)
    → o ≡ some (true, v)
unfolding leave
leave_hit id none v h = cc
leave_hit id (some (true, w)) v h = h
leave_hit id (some (false, w)) v h = cc

pub leave_miss :
    (id : Text) (o : Option (Bool × List Text)) (v : List Text)
    → leave id o ≡ some (false, v)
    → (w : List Text) × (o ≡ some (false, w)) × (v ≡ remove_id id w)
unfolding leave remove_id
leave_miss id none v h = cc
leave_miss id (some (true, w)) v h = cc
leave_miss id (some (false, w)) v h = (w, refl, ground arith)

-- How many of the extensions are not in the set.
abbrev pub missing {ℓ} : {V : Type ℓ} → List (Text × V) → List Text → ℕ
missing [] v = 0
missing ((k, _) ∷ exts) v = if seen k v then missing exts v else suc (missing exts v)

pub missing-le-length {ℓ} :
    {V : Type ℓ} (exts : List (Text × V)) (v : List Text) → missing exts v ≤ length exts
missing-le-length [] v = omega arith
missing-le-length ((k, _) ∷ exts) v = ground (arith, missing-le-length exts v)

missing-cons-le {ℓ} :
    {V : Type ℓ} (exts : List (Text × V)) (id : Text) (v : List Text)
    → missing exts (id ∷ v) ≤ missing exts v
missing-cons-le [] id v = omega arith
missing-cons-le ((k, _) ∷ exts) id v = ground (arith, missing-cons-le exts id v)

module _ (s : Semver) (c : Contract) (r : CapabilityRegistry s c) (exts : Extensions s c) where
  -- An extension depends on another: one of its requirements has a matching offer from it.
  pub record Edge (a b : Text) : Type 0 where
    pub reqs : List (CapabilityRef s c)
    pub known : reqs_of s c a exts ≡ some reqs
    pub offered : Memᴰ b (targets s c r reqs)

  abbrev pub dfs : ℕ → Text → List Text → Option (Bool × List Text)
  dfs = dfs_has_cycle s c r exts

  -- How a search answers.
  pub data Search (fuel : ℕ) (id : Text) (visited : List Text) (o : Option (Bool × List Text))
      : Type 0 where
    repeated : Memᴰ id visited → o ≡ some (true, visited) → Search fuel id visited o
    unknown :
        seen id visited ≡ false
        → reqs_of s c id exts ≡ none
        → o ≡ some (false, visited)
        → Search fuel id visited o
    entered :
        (reqs : List (CapabilityRef s c))
        → seen id visited ≡ false
        → reqs_of s c id exts ≡ some reqs
        → o ≡ leave id (visit (dfs fuel) (targets s c r reqs) (id ∷ visited))
        → Search fuel id visited o

  pub dfs-Search :
      (fuel : ℕ) (id : Text) (visited : List Text)
      → Search fuel id visited (dfs (suc fuel) id visited)
  unfolding dfs_has_cycle
  dfs-Search fuel id visited = elim (Bool-cases (seen id visited)) [
    | inl old ↦ repeated ((seen_iff id visited).0 old) (rw (old, dfs_has_cycle))
    | inr new ↦ elim (Option-cases (reqs_of s c id exts)) [
      | inl e ↦
          unknown new e
            (rw (new, e, dfs_has_cycle) (ap (λ v. some (false, v)) (remove_id-cons id visited new)))
      | inr (reqs, e) ↦ entered reqs new e (rw (new, e, dfs_has_cycle) refl)
    ]
  ]

  -- Entering a known extension leaves fewer to enter.
  pub missing-cons-lt :
      (es : Extensions s c) (id : Text) (v : List Text) (reqs : List (CapabilityRef s c))
      → reqs_of s c id es ≡ some reqs
      → seen id v ≡ false
      → missing es (id ∷ v) < missing es v
  unfolding reqs_of
  missing-cons-lt [] id v reqs e new = cc
  missing-cons-lt ((k, ks) ∷ es) id v reqs e new = elim (Bool-cases (text_eq id k)) [
    | inl same ↦
        let fresh : seen k v ≡ false =
          subst (λ x. seen x v ≡ false) ((text_eq_iff id k).0 same) new in
        rw (same, fresh) (omega (arith, missing-cons-le es id v))
    | inr other ↦ elim (Option-cases (reqs_of s c id es)) [
      | inr (rs, f) ↦
          let fewer = missing-cons-lt es id v rs f new in rw other (ground (arith, fewer))
      | inl f ↦ elim (Bool-cases (text_eq k id)) [
        | inl same ↦ cc (other, (text_eq_iff id k).1 (sym ((text_eq_iff k id).0 same)))
        | inr away ↦ cc (rw (f, away, reqs_of) at e)
      ]
    ]
  ]
