-- ===== src/Llm/Roles.antt =====
-- `resolve_llm_role`: which role a call may use.
use greentic_designer_extens.Base.{
  ◌<◌, arith, length, ◌≡◌, refl, subst, ◌↔◌, ◌⊎◌, inl, inr, Option, none, some, List, [], ◌∷◌, Memᴰ,
  Text, text_eq, text_eq_iff, text_eq_refl, any, any_found, any_of_mem, Bool-cases,
}
use greentic_designer_extens.Base.Outcome.{ok, err}
use greentic_designer_extens.Llm.Defs.{
  LlmError, role_not_permitted, no_roles, hint_required, LlmError, resolve_llm_role,
}

-- The role is the hint and declared, or there is no hint and it is the only declared role.
abbrev pub Permits : Option Text → List Text → Text → Type 0
Permits hint roles role =
    ((hint ≡ some role) × Memᴰ role roles) ⊎ ((hint ≡ none) × (roles ≡ role ∷ []))

resolve_llm_role-Permits :
    (hint : Option Text) (roles : List Text) (role : Text)
    → resolve_llm_role hint roles ≡ ok role
    → Permits hint roles role
unfolding resolve_llm_role
resolve_llm_role-Permits none [] role e = cc
resolve_llm_role-Permits none (r ∷ []) role e = inr (refl, cc)
resolve_llm_role-Permits none (r ∷ s ∷ roles) role e = cc
resolve_llm_role-Permits (some h) roles role e = elim (Bool-cases (any (λ r. text_eq r h) roles)) [
  | inr miss ↦ absurd (cc (rw miss at e))
  | inl hit ↦
      let (r, i, same) = any_found (λ r. text_eq r h) roles hit in
      let here : h ≡ role = cc (rw hit at e) in
      inl (cc, subst (λ t. Memᴰ t roles) (cc ((text_eq_iff r h).0 same)) i)
]

resolve_llm_role_of :
    (hint : Option Text) (roles : List Text) (role : Text)
    → Permits hint roles role
    → resolve_llm_role hint roles ≡ ok role
unfolding resolve_llm_role
resolve_llm_role_of hint roles role (inr (e, f)) = rw (e, f) refl
resolve_llm_role_of hint roles role (inl (e, i)) =
    rw (e, any_of_mem (λ r. text_eq r role) role roles i (text_eq_refl role)) refl

-- A role is resolved exactly when it is the hint and is declared, or when no hint is given and it is
-- the only role that is declared.
pub resolve_llm_role_iff :
    (hint : Option Text) (roles : List Text) (role : Text)
    → (resolve_llm_role hint roles ≡ ok role) ↔ Permits hint roles role
resolve_llm_role_iff hint roles role =
    (resolve_llm_role-Permits hint roles role, resolve_llm_role_of hint roles role)

-- Why no role is resolved.
abbrev pub RoleCause : Option Text → List Text → LlmError → Type 0
RoleCause hint roles (role_not_permitted q) = (hint ≡ some q) × (Memᴰ q roles → ⊥)
RoleCause hint roles no_roles = (hint ≡ none) × (roles ≡ [])
RoleCause hint roles hint_required = (hint ≡ none) × (1 < length roles)
RoleCause hint roles _ = ⊥

pub resolve_llm_role_refused :
    (hint : Option Text) (roles : List Text) (e : LlmError)
    → resolve_llm_role hint roles ≡ err e
    → RoleCause hint roles e
unfolding resolve_llm_role
resolve_llm_role_refused none [] e h =
    let same : no_roles ≡ e = cc in subst (RoleCause none []) same (refl, refl)
resolve_llm_role_refused none (r ∷ []) e h = cc
resolve_llm_role_refused none (r ∷ s ∷ roles) e h =
    let same : hint_required ≡ e = cc in
    subst (RoleCause none (r ∷ s ∷ roles)) same (refl, omega arith)
resolve_llm_role_refused (some q) roles e h = elim (Bool-cases (any (λ r. text_eq r q) roles)) [
  | inl hit ↦ absurd (cc (rw hit at h))
  | inr miss ↦
      let same : role_not_permitted q ≡ e = cc (rw miss at h) in
      subst (RoleCause (some q) roles) same
        (refl, λ i. cc (miss, any_of_mem (λ r. text_eq r q) q roles i (text_eq_refl q)))
]
