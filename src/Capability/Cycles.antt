-- ===== src/Capability/Cycles.antt =====
-- `detect_cycle` always answers, and lists exactly the extensions whose graph reaches a cycle.
use greentic_designer_extens.Base.{
  ℕ, zero, suc, ◌≤◌, ◌<◌, ◌≡◌, refl, sym, subst, ap, ◌∙◌, ◌≢◌, ◌↔◌, inl, inr, Bool, true, false,
  Option, none, some, List, [], ◌∷◌, Memᴰ, mem_of_All, arith, Text, length, map, Option-cases,
}
use greentic_designer_extens.Capability.Contract.{Semver, Contract}
use greentic_designer_extens.Capability.Registry.{
  CapabilityRef, CapabilityRegistry, Extensions, targets, remove_id, dfs_has_cycle, detect_from,
  detect_cycle,
}
use greentic_designer_extens.Capability.Graph.{
  Reach, here, step, Reach-trans, ReachesCycle, ReachesCycle-step, ReachesCycle-Walk, Walk, go,
}
use greentic_designer_extens.Capability.Search.{
  Restores, remove_id-cons, visit_miss, visit_hit, visit_total, leave-ne-none, leave_hit,
  leave_miss, missing, missing-le-length, missing-cons-lt, Edge, dfs, repeated, unknown, entered,
  dfs-Search,
}

module _ (s : Semver) (c : Contract) (r : CapabilityRegistry s c) (exts : Extensions s c) where
  abbrev search : ℕ → Text → List Text → Option (Bool × List Text)
  search = dfs s c r exts

  -- In the graph that offers and requirements make.
  abbrev DependsOn : Text → Text → Type 0
  DependsOn = Edge s c r exts

  search-Restores : (fuel : ℕ) → Restores (search fuel)
  unfolding dfs_has_cycle
  search-Restores zero t v v' h = cc
  search-Restores (suc fuel) t v v' h = elim (dfs-Search s c r exts fuel t v) [
    | repeated _ e ↦ cc (e, h)
    | unknown _ _ e ↦ cc (e, h)
    | entered reqs new _ e ↦
        let (w, inner, left) = leave_miss t _ v' (sym e ∙ h) in
        let (same, _) = visit_miss (search fuel) (search-Restores fuel) _ (t ∷ v) w inner in
        left ∙ ap (λ x. remove_id t x) same ∙ remove_id-cons t v new
  ]

  -- With as much fuel as there are extensions still to enter, and one round more, it answers.
  search_total :
      (fuel : ℕ) (id : Text) (v : List Text) → missing exts v ≤ fuel → search (suc fuel) id v ≢ none
  search_total zero id v enough h = elim (dfs-Search s c r exts zero id v) [
    | repeated _ e ↦ cc (e, h)
    | unknown _ _ e ↦ cc (e, h)
    | entered reqs new known e ↦
        absurd (omega (arith, missing-cons-lt s c r exts exts id v reqs known new))
  ]
  search_total (suc fuel) id v enough h = elim (dfs-Search s c r exts (suc fuel) id v) [
    | repeated _ e ↦ cc (e, h)
    | unknown _ _ e ↦ cc (e, h)
    | entered reqs new known e ↦
        let fewer : missing exts (id ∷ v) ≤ fuel =
          omega (arith, missing-cons-lt s c r exts exts id v reqs known new) in
        leave-ne-none id _
          (visit_total (search (suc fuel)) (search-Restores (suc fuel)) _ (id ∷ v)
            (λ t. search_total fuel t (id ∷ v) fewer))
          (sym e ∙ h)
  ]

  -- `a` depends on `b`, at once or through others.
  abbrev DependsLater : Text → Text → Type 0
  DependsLater a b = (y : Text) × DependsOn a y × Reach DependsOn y b

  -- What stands in the set on the way to a target depends on it.
  entered_stack :
      (id t : Text) (v : List Text)
      → DependsOn id t
      → ((u : Text) → Memᴰ u v → DependsLater u id)
      → (u : Text) → Memᴰ u (id ∷ v)
      → DependsLater u t
  entered_stack id t v e stack u (Memᴰ.head same) =
      (t, subst (λ x. DependsOn x t) (sym same) e, here)
  entered_stack id t v e stack u (Memᴰ.tail i) =
      let (y, f, q) = stack u i in (y, f, Reach-trans DependsOn q (step e here))

  search_sound :
      (fuel : ℕ) (id : Text) (v v' : List Text)
      → ((u : Text) → Memᴰ u v → DependsLater u id)
      → search fuel id v ≡ some (true, v')
      → ReachesCycle DependsOn id
  unfolding dfs_has_cycle
  search_sound zero id v v' stack h = cc
  search_sound (suc fuel) id v v' stack h = elim (dfs-Search s c r exts fuel id v) [
    | repeated i e ↦
        let (y, f, q) = stack id i in
        record { on_cycle = id; after = y; to_cycle = here; first = f; back = q }
    | unknown _ _ e ↦ cc (e, h)
    | entered reqs new known e ↦
        let (t, i, (w, found)) =
          visit_hit (search fuel) (search-Restores fuel) _ (id ∷ v) v'
            (leave_hit id _ v' (sym e ∙ h)) in
        let edge : DependsOn id t = record { reqs = reqs; known = known; offered = i } in
        ReachesCycle-step DependsOn edge
          (search_sound fuel t (id ∷ v) w (entered_stack id t v edge stack) found)
  ]

  -- A search that finds nothing bounds every walk.
  search_complete :
      (fuel n : ℕ) (id : Text) (v v' : List Text)
      → search fuel id v ≡ some (false, v')
      → Walk DependsOn n id
      → n < fuel
  unfolding dfs_has_cycle
  search_complete zero n id v v' h w = cc
  search_complete (suc fuel) zero id v v' h w = omega arith
  search_complete (suc fuel) (suc n) id v v' h (go {b = b} f w) =
      elim (dfs-Search s c r exts fuel id v) [
        | repeated _ e ↦ cc (e, h)
        | unknown _ none_known e ↦ cc (none_known, f.known)
        | entered reqs new known e ↦
            let (left, inner, _) = leave_miss id _ v' (sym e ∙ h) in
            let (_, each) = visit_miss (search fuel) (search-Restores fuel) _ (id ∷ v) left inner in
            let same : f.reqs ≡ reqs = cc (f.known, known) in
            let i = subst (λ q. Memᴰ b (targets s c r q)) same f.offered in
            omega (arith, search_complete fuel n b (id ∷ v) (id ∷ v) (mem_of_All _ b _ each i) w)
      ]

  -- A search from an empty set decides whether the extension reaches a cycle.
  data Decided (id : Text) (o : Option (Bool × List Text)) : Type 0 where
    cyclic : (v : List Text) → o ≡ some (true, v) → ReachesCycle DependsOn id → Decided id o
    acyclic : (v : List Text) → o ≡ some (false, v) → ¬ ReachesCycle DependsOn id → Decided id o

  search-Decided : (id : Text) → Decided id (search (suc (length exts)) id [])
  search-Decided id = elim (Option-cases (search (suc (length exts)) id [])) [
    | inl out ↦ absurd (search_total (length exts) id [] (missing-le-length exts []) out)
    | inr ((true, v), e) ↦
        cyclic v e (search_sound (suc (length exts)) id [] v (λ u i. elim i [ ]) e)
    | inr ((false, v), e) ↦ acyclic v e (λ cycle.
        let endless = ReachesCycle-Walk DependsOn (suc (length exts)) cycle in
        absurd (
          omega (arith, search_complete (suc (length exts)) (suc (length exts)) id [] v e endless)))
  ]

  -- The list names the extensions of `es` whose graph reaches a cycle, and no others.
  abbrev pub Lists : Extensions s c → List Text → Type 0
  Lists es result =
      (id : Text) → Memᴰ id result ↔ (Memᴰ id (map (λ e. e.0) es) × ReachesCycle DependsOn id)

  Lists-cyclic :
      (id : Text) (reqs : List (CapabilityRef s c)) (es : Extensions s c) (result : List Text)
      → ReachesCycle DependsOn id
      → Lists es result
      → Lists ((id, reqs) ∷ es) (id ∷ result)
  Lists-cyclic id reqs es result cycle h x = (to, from)
    where
      to : Memᴰ x (id ∷ result) → Memᴰ x (id ∷ map (λ e. e.0) es) × ReachesCycle DependsOn x
      to (Memᴰ.head same) = (Memᴰ.head same, subst (ReachesCycle DependsOn) (sym same) cycle)
      to (Memᴰ.tail i) = let (j, d) = (h x).0 i in (Memᴰ.tail j, d)

      from : Memᴰ x (id ∷ map (λ e. e.0) es) × ReachesCycle DependsOn x → Memᴰ x (id ∷ result)
      from (Memᴰ.head same, d) = Memᴰ.head same
      from (Memᴰ.tail j, d) = Memᴰ.tail ((h x).1 (j, d))

  Lists-acyclic :
      (id : Text) (reqs : List (CapabilityRef s c)) (es : Extensions s c) (result : List Text)
      → ¬ ReachesCycle DependsOn id
      → Lists es result
      → Lists ((id, reqs) ∷ es) result
  Lists-acyclic id reqs es result fine h x = (to, from)
    where
      to : Memᴰ x result → Memᴰ x (id ∷ map (λ e. e.0) es) × ReachesCycle DependsOn x
      to i = let (j, d) = (h x).0 i in (Memᴰ.tail j, d)

      from : Memᴰ x (id ∷ map (λ e. e.0) es) × ReachesCycle DependsOn x → Memᴰ x result
      from (Memᴰ.head same, d) = absurd (fine (subst (ReachesCycle DependsOn) same d))
      from (Memᴰ.tail j, d) = (h x).1 (j, d)

  detect_from-Lists :
      (es : Extensions s c)
      → (result : List Text) × (detect_from s c r exts (suc (length exts)) es ≡ some result)
        × Lists es result
  unfolding detect_from
  detect_from-Lists [] = ([], refl, λ x. (λ i. elim i [ ], λ p. elim p.0 [ ]))
  detect_from-Lists ((id, reqs) ∷ es) =
      let (result, e, h) = detect_from-Lists es in
      elim (search-Decided id) [
        | cyclic v found cycle ↦
            (id ∷ result, rw (found, e), Lists-cyclic id reqs es result cycle h)
        | acyclic v found fine ↦ (result, rw (found, e), Lists-acyclic id reqs es result fine h)
      ]

  -- `detect_cycle` never runs out of rounds, and the list that it returns names exactly the given
  -- extensions from which a cycle of dependencies can be reached.
  pub detect_cycle_lem :
      (result : List Text) × (detect_cycle s c r exts ≡ some result) × Lists exts result
  unfolding detect_cycle
  detect_cycle_lem = detect_from-Lists exts
