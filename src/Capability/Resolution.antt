-- ===== src/Capability/Resolution.antt =====
-- What `resolve` binds a requirement to, and what it leaves unresolved.
use Prim.Native.Nat.{Ordering}
use greentic_designer_extens.Base.{
  ◌≡◌, refl, sym, subst, ◌≢◌, ◌⊎◌, inl, inr, true, false, none, some, List, [], ◌∷◌, ◌++◌, Memᴰ,
  mem-keep, mem-keep_of, Memᴰ-append_left, Memᴰ-append_right, Memᴰ-append, arith, Text, Bool-cases,
  Option-cases, if◌then◌else◌,
}
use greentic_designer_extens.Base.Options.{>>=-eq-some, ◌>>=◌}
use greentic_designer_extens.Capability.Contract.{Semver, IsOrdered, Contract}
use greentic_designer_extens.Capability.Registry.{
  OfferedBinding, CapabilityRef, CapabilityRegistry, ResolutionPlan, get, insert, offers_of,
  max_from, max_by_version, matching, best_for, resolve_from, resolve,
}
use mathlib.Core.List.{append_assoc, append-nil}
use greentic_designer_extens.Capability.Latest.{Latest, max_from-Latest}

module _ (s : Semver) (c : Contract) where
  open s use {Version, VersionReq, parse_req, req_matches, cmp}
  open c use {CapabilityId, cap_eq, cap_eq_iff}

  pub get-insert {ℓ} :
      {V : Type ℓ} (k j : CapabilityId) (v : V) (m : List (CapabilityId × V))
      → get s c j (insert s c k v m) ≡ (if cap_eq k j then some v else get s c j m)
  unfolding get insert
  get-insert k j v [] = refl
  get-insert k j v ((i, w) ∷ m) =
      ground (arith, cap_eq_iff k j, cap_eq_iff i k, cap_eq_iff i j, get-insert k j v m)

  -- The offer is one of the capability that the requirement names, its version satisfies the
  -- requirement, and no other such offer is newer.
  pub record Binds (r : CapabilityRegistry s c) (req : CapabilityRef s c) (o : OfferedBinding s c)
      : Type 0 where
    pub vr : VersionReq
    pub parses : parse_req req.version ≡ some vr
    pub offered : Memᴰ o (offers_of s c r req.id)
    pub fits : req_matches vr o.version ≡ true
    pub newest :
        (x : OfferedBinding s c)
        → Memᴰ x (offers_of s c r req.id)
        → req_matches vr x.version ≡ true
        → cmp o.version x.version ≢ Ordering.lt

  -- No offer satisfies the requirement, or it does not parse.
  abbrev pub Unbindable : CapabilityRegistry s c → CapabilityRef s c → Type 0
  Unbindable r req =
      (vr : VersionReq) (x : OfferedBinding s c)
      → parse_req req.version ≡ some vr
      → Memᴰ x (offers_of s c r req.id)
      → req_matches vr x.version ≡ false

  module _ (ordered : IsOrdered s) (r : CapabilityRegistry s c) where
    max_of_Latest :
        (os : List (OfferedBinding s c)) (o : OfferedBinding s c)
        → max_by_version s c os ≡ some o
        → Latest s c ordered o os
    unfolding max_by_version
    max_of_Latest [] o e = cc
    max_of_Latest (x ∷ os) o e =
        let same : max_from s c x os ≡ o = cc (e) in
        subst (λ w. Latest s c ordered w (x ∷ os)) same (max_from-Latest s c ordered x os)

    max_of_none : (os : List (OfferedBinding s c)) → max_by_version s c os ≡ none → os ≡ []
    unfolding max_by_version
    max_of_none [] e = refl
    max_of_none (x ∷ os) e = cc

    best_for-Binds :
        (req : CapabilityRef s c) (o : OfferedBinding s c)
        → best_for s c r req ≡ some o
        → Binds r req o
    unfolding best_for matching
    best_for-Binds req o e =
        let (vr, parses, e') = >>=-eq-some (parse_req req.version) _ e in
        let latest = max_of_Latest (matching s c r req vr) o e' in
        let (offered, fits) =
          mem-keep (λ x. req_matches vr x.version) o (offers_of s c r req.id) latest.listed in
        record {
          vr = vr;
          parses = parses;
          offered = offered;
          fits = fits;
          newest = λ x i f. latest.newest x (mem-keep_of (λ y. req_matches vr y.version) x _ i f);
        }

    best_for-Unbindable : (req : CapabilityRef s c) → best_for s c r req ≡ none → Unbindable r req
    unfolding best_for matching
    best_for-Unbindable req e vr x parses i = elim (Bool-cases (req_matches vr x.version)) [
      | inr off ↦ off
      | inl hit ↦
          let none_left : matching s c r req vr ≡ [] =
            max_of_none (matching s c r req vr) (rw (parses, ◌>>=◌) at e) in
          absurd (
            no_member (
              subst (Memᴰ x) none_left
                (mem-keep_of (λ y. req_matches vr y.version) x (offers_of s c r req.id) i hit)))
    ]
      where
        no_member : {x : OfferedBinding s c} → ¬ Memᴰ x []
        no_member i = elim i [ ]

    -- What a plan says of the requirements in the list.
    pub record IsResolution (required : List (CapabilityRef s c)) (plan : ResolutionPlan s c)
        : Type 0 where
      pub bound :
          (id : CapabilityId) (o : OfferedBinding s c)
          → get s c id plan.resolved ≡ some o
          → (req : CapabilityRef s c) × Memᴰ req required × (req.id ≡ id) × Binds r req o
      pub handled :
          (req : CapabilityRef s c)
          → Memᴰ req required
          → Memᴰ req plan.unresolved
            ⊎ ((o : OfferedBinding s c) × (get s c req.id plan.resolved ≡ some o))
      pub left_over :
          (req : CapabilityRef s c)
          → Memᴰ req plan.unresolved
          → Memᴰ req required × Unbindable r req

    module _ (req : CapabilityRef s c) (required : List (CapabilityRef s c))
        (plan : ResolutionPlan s c) (p : IsResolution required plan) where
      -- One more requirement that cannot be bound.
      unresolved-IsResolution :
          Unbindable r req
          → IsResolution
              (required ++ (req ∷ []))
              (record plan { unresolved = plan.unresolved ++ (req ∷ []) })
      unresolved-IsResolution u = record { bound = bound; handled = handled; left_over = left_over }
        where
          bound :
              (id : CapabilityId) (o : OfferedBinding s c)
              → get s c id plan.resolved ≡ some o
              → (x : CapabilityRef s c) × Memᴰ x (required ++ (req ∷ []))
                × (x.id ≡ id)
                × Binds r x o
          bound id o e =
              let (x, i, same, b) = p.bound id o e in (x, Memᴰ-append_left x required _ i, same, b)

          handled :
              (x : CapabilityRef s c)
              → Memᴰ x (required ++ (req ∷ []))
              → Memᴰ x (plan.unresolved ++ (req ∷ []))
                ⊎ ((o : OfferedBinding s c) × (get s c x.id plan.resolved ≡ some o))
          handled x i = elim (Memᴰ-append x required (req ∷ []) i) [
            | inl old ↦ elim (p.handled x old) [
              | inl j ↦ inl (Memᴰ-append_left x plan.unresolved _ j)
              | inr found ↦ inr found
            ]
            | inr new ↦ inl (Memᴰ-append_right x plan.unresolved _ new)
          ]

          left_over :
              (x : CapabilityRef s c)
              → Memᴰ x (plan.unresolved ++ (req ∷ []))
              → Memᴰ x (required ++ (req ∷ [])) × Unbindable r x
          left_over x i = elim (Memᴰ-append x plan.unresolved (req ∷ []) i) [
            | inl old ↦ let (j, w) = p.left_over x old in (Memᴰ-append_left x required _ j, w)
            | inr new ↦ (Memᴰ-append_right x required _ new, last x new)
          ]
            where
              last : (x : CapabilityRef s c) → Memᴰ x (req ∷ []) → Unbindable r x
              last x (Memᴰ.head same) = subst (Unbindable r) (sym same) u
              last x (Memᴰ.tail i) = elim i [ ]

      -- One more requirement that is bound.
      resolved-IsResolution :
          (o : OfferedBinding s c)
          → Binds r req o
          → IsResolution
              (required ++ (req ∷ []))
              (record plan { resolved = insert s c req.id o plan.resolved })
      resolved-IsResolution o b = record { bound = bound; handled = handled; left_over = left_over }
        where
          bound :
              (id : CapabilityId) (x : OfferedBinding s c)
              → get s c id (insert s c req.id o plan.resolved) ≡ some x
              → (q : CapabilityRef s c) × Memᴰ q (required ++ (req ∷ []))
                × (q.id ≡ id)
                × Binds r q x
          bound id x e = elim (Bool-cases (cap_eq req.id id)) [
            | inl same ↦
                let is_o : o ≡ x = cc (rw (get-insert req.id id o plan.resolved, same) at e) in
                (
                  req,
                  Memᴰ-append_right req required _ (Memᴰ.head refl),
                  (cap_eq_iff req.id id).0 same,
                  subst (Binds r req) is_o b,
                )
            | inr other ↦
                let (q, i, is, d) =
                  p.bound id x (rw (get-insert req.id id o plan.resolved, other) at e) in
                (q, Memᴰ-append_left q required _ i, is, d)
          ]

          found :
              (x : CapabilityRef s c)
              → ((y : OfferedBinding s c) × (get s c x.id plan.resolved ≡ some y))
              → (y : OfferedBinding s c) × (get s c x.id (insert s c req.id o plan.resolved)
                  ≡ some y)
          found x (y, e) = elim (Bool-cases (cap_eq req.id x.id)) [
            | inl same ↦ (o, rw (get-insert req.id x.id o plan.resolved, same))
            | inr other ↦ (y, rw (get-insert req.id x.id o plan.resolved, other) e)
          ]

          handled :
              (x : CapabilityRef s c)
              → Memᴰ x (required ++ (req ∷ []))
              → Memᴰ x plan.unresolved
                ⊎ ((y : OfferedBinding s c) × (get s c x.id (insert s c req.id o plan.resolved)
                      ≡ some y))
          handled x i = elim (Memᴰ-append x required (req ∷ []) i) [
            | inl old ↦ elim (p.handled x old) [ inl j ↦ inl j | inr y ↦ inr (found x y) ]
            | inr new ↦ inr (mine x new)
          ]
            where
              mine :
                  (x : CapabilityRef s c)
                  → Memᴰ x (req ∷ [])
                  → (y : OfferedBinding s c) × (get s c x.id (insert s c req.id o plan.resolved)
                      ≡ some y)
              mine x (Memᴰ.head same) = (
                o,
                rw (
                  same,
                  get-insert req.id req.id o plan.resolved,
                  (cap_eq_iff req.id req.id).1 refl,
                ),
              )
              mine x (Memᴰ.tail i) = elim i [ ]

          left_over :
              (x : CapabilityRef s c)
              → Memᴰ x plan.unresolved
              → Memᴰ x (required ++ (req ∷ [])) × Unbindable r x
          left_over x i = let (j, w) = p.left_over x i in (Memᴰ-append_left x required _ j, w)

    resolve_from-IsResolution :
        (done todo : List (CapabilityRef s c)) (plan : ResolutionPlan s c)
        → IsResolution done plan
        → IsResolution (done ++ todo) (resolve_from s c r plan todo)
    unfolding resolve_from
    resolve_from-IsResolution done [] plan p = rw append-nil p
    resolve_from-IsResolution done (req ∷ todo) plan p =
        subst (λ l. IsResolution l (resolve_from s c r plan (req ∷ todo)))
          (append_assoc done (req ∷ []) todo)
          (resolve_from-IsResolution (done ++ (req ∷ [])) todo _ next)
      where
        next : IsResolution (done ++ (req ∷ [])) (elim (best_for s c r req) [
          | none ↦ record plan { unresolved = plan.unresolved ++ (req ∷ []) }
          | some o ↦ record plan { resolved = insert s c req.id o plan.resolved }
        ])
        next = elim (Option-cases (best_for s c r req)) [
          | inl e ↦ rw e (unresolved-IsResolution req done plan p (best_for-Unbindable req e))
          | inr (o, e) ↦ rw e (resolved-IsResolution req done plan p o (best_for-Binds req o e))
        ]

    -- A plan binds a capability only to the newest offer that satisfies one of its requirements, it
    -- either binds the capability of a requirement or lists it as unresolved, and it lists
    -- as unresolved only requirements that no offer satisfies.
    pub resolve-IsResolution :
        (consumer : Text) (required : List (CapabilityRef s c))
        → IsResolution required (resolve s c r consumer required)
    unfolding resolve get
    resolve-IsResolution consumer required = resolve_from-IsResolution [] required _ (record {
      bound = λ id o e. cc (e);
      handled = λ req i. elim i [ ];
      left_over = λ req i. elim i [ ];
    })
