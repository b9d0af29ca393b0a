-- ===== src/Capability/Graph.antt =====
-- Reachability and walks in a relation, and why a reachable cycle allows walks of any length.
use greentic_designer_extens.Base.{ℕ, zero, suc}

module _ {ℓ κ} {A : Type ℓ} (Edge : A → A → Type κ) where
  pub data Reach : A → A → Type (ℓ ⊔ κ) where
    here : {a : A} → Reach a a
    step : {a b c : A} → Edge a b → Reach b c → Reach a c

  -- Some vertex that `a` reaches lies on a cycle.
  pub record ReachesCycle (a : A) : Type (ℓ ⊔ κ) where
    pub on_cycle : A
    pub after : A
    pub to_cycle : Reach a on_cycle
    pub first : Edge on_cycle after
    pub back : Reach after on_cycle

  pub data Walk : ℕ → A → Type (ℓ ⊔ κ) where
    stop : {a : A} → Walk zero a
    go : {n : ℕ} {a b : A} → Edge a b → Walk n b → Walk (suc n) a

  pub Reach-trans : {a b c : A} → Reach a b → Reach b c → Reach a c
  Reach-trans here r = r
  Reach-trans (step e q) r = step e (Reach-trans q r)

  -- From a vertex that reaches the vertex `x` of a cycle.
  pub cycle-Walk : (n : ℕ) {a x y : A} → Edge x y → Reach y x → Reach a x → Walk n a
  cycle-Walk zero e back r = stop
  cycle-Walk (suc n) e back here = go e (cycle-Walk n e back back)
  cycle-Walk (suc n) e back (step f r) = go f (cycle-Walk n e back r)

  pub ReachesCycle-Walk : (n : ℕ) {a : A} → ReachesCycle a → Walk n a
  ReachesCycle-Walk n c = cycle-Walk n c.first c.back c.to_cycle

  pub ReachesCycle-step : {a b : A} → Edge a b → ReachesCycle b → ReachesCycle a
  ReachesCycle-step e c = record {
    on_cycle = c.on_cycle;
    after = c.after;
    to_cycle = step e c.to_cycle;
    first = c.first;
    back = c.back;
  }
