-- ===== src/Runtime/Advertised.antt =====
-- The registry of a loaded map offers what the loaded extensions advertise, and nothing else.
use greentic_designer_extens.Base.{
  ◌≡◌, refl, subst, ◌↔◌, ◌⊎◌, inl, inr, true, List, [], ◌∷◌, Memᴰ, All, Text, is_some, Option-cases,
}
use greentic_designer_extens.Base.Outcome.{Outcome, ok, err}
use greentic_designer_extens.Capability.Contract.{Semver, Contract}
use greentic_designer_extens.Capability.Registry
use greentic_designer_extens.Capability.Registry.{
  CapabilityRegistry, OfferedBinding, offers_of, get,
}
use greentic_designer_extens.Runtime.Defs.{
  RuntimeError, Offered, Loaded, offer_all, rebuild_from, rebuild_registry,
}
use greentic_designer_extens.Runtime.Rebuild.{
  Among, Advertised, offer_all_sound, offer_all_complete,
}

module _ (s : Semver) (c : Contract) where
  open s use {parse_version}
  open c use {CapabilityId, ExtensionKind}

  pub outcome_cases :
      (x : Outcome RuntimeError (CapabilityRegistry s c))
      → ((e : RuntimeError) × (x ≡ err e)) ⊎ ((r : CapabilityRegistry s c) × (x ≡ ok r))
  outcome_cases (err e) = inl (e, refl)
  outcome_cases (ok r) = inr (r, refl)

  module _ (o : OfferedBinding s c) where
    rebuild_from_sound :
        (loaded : Loaded s c) (r r' : CapabilityRegistry s c) (k : CapabilityId)
        → rebuild_from s c loaded r ≡ ok r'
        → Memᴰ o (offers_of s c r' k)
        → Memᴰ o (offers_of s c r k) ⊎ ((o.cap_id ≡ k) × Advertised s c loaded o)
    unfolding rebuild_from
    rebuild_from_sound [] r r' k e i = inl (subst (λ x. Memᴰ o (offers_of s c x k)) (cc (e)) i)
    rebuild_from_sound ((id, ext) ∷ loaded) r r' k e i =
        elim (outcome_cases (offer_all s c id ext.kind ext.offered r)) [
          | inl (_, bad) ↦ absurd (cc (rw (bad, rebuild_from) at e))
          | inr (m, good) ↦
              elim (rebuild_from_sound loaded m r' k (rw (good, rebuild_from) at e) i) [
                | inr (at_k, (id', ext', j, among)) ↦ inr (at_k, (id', ext', Memᴰ.tail j, among))
                | inl j ↦ elim (offer_all_sound s c id ext.kind o ext.offered r m k good j) [
                  | inl before ↦ inl before
                  | inr (at_k, among) ↦ inr (at_k, (id, ext, Memᴰ.head refl, among))
                ]
              ]
        ]

    rebuild_from_complete :
        (loaded : Loaded s c) (r r' : CapabilityRegistry s c) (k : CapabilityId)
        → rebuild_from s c loaded r ≡ ok r'
        → Memᴰ o (offers_of s c r k) ⊎ ((o.cap_id ≡ k) × Advertised s c loaded o)
        → Memᴰ o (offers_of s c r' k)
    unfolding rebuild_from
    rebuild_from_complete [] r r' k e (inl i) = subst (λ x. Memᴰ o (offers_of s c x k)) (cc (e)) i
    rebuild_from_complete [] r r' k e (inr (_, (_, _, i, _))) = elim i [ ]
    rebuild_from_complete ((id, ext) ∷ loaded) r r' k e h =
        elim (outcome_cases (offer_all s c id ext.kind ext.offered r)) [
          | inl (_, bad) ↦ absurd (cc (rw (bad, rebuild_from) at e))
          | inr (m, good) ↦
              rebuild_from_complete loaded m r' k (rw (good, rebuild_from) at e) (step m good h)
        ]
      where
        step :
            (m : CapabilityRegistry s c)
            → offer_all s c id ext.kind ext.offered r ≡ ok m
            → Memᴰ o (offers_of s c r k) ⊎ ((o.cap_id ≡ k) × Advertised s c ((id, ext) ∷ loaded) o)
            → Memᴰ o (offers_of s c m k) ⊎ ((o.cap_id ≡ k) × Advertised s c loaded o)
        step m good (inl i) =
            inl (offer_all_complete s c id ext.kind o ext.offered r m k good (inl i))
        step m good (inr (at_k, (id', ext', Memᴰ.tail j, among))) =
            inr (at_k, (id', ext', j, among))
        step m good (inr (at_k, (id', ext', Memᴰ.head same, among))) =
            let here : Among s c id ext.kind ext.offered o =
              subst (λ e. Among s c e.0 e.1.kind e.1.offered o) same among in
            inl (offer_all_complete s c id ext.kind o ext.offered r m k good (inr (at_k, here)))

  offers_of-new : (k : CapabilityId) → offers_of s c (Registry.new s c) k ≡ []
  unfolding offers_of Registry.new get
  offers_of-new k = refl

  -- The registry rebuilt from a loaded map offers a binding for a capability exactly when the binding
  -- is for that capability and stands for an offer of a loaded extension, with its parsed version.
  pub rebuild_registry_iff :
      (loaded : Loaded s c) (r : CapabilityRegistry s c)
      → rebuild_registry s c loaded ≡ ok r
      → (o : OfferedBinding s c) (k : CapabilityId)
      → Memᴰ o (offers_of s c r k) ↔ ((o.cap_id ≡ k) × Advertised s c loaded o)
  unfolding rebuild_registry
  rebuild_registry_iff loaded r e o k = (
    λ i. from_new (rebuild_from_sound o loaded (Registry.new s c) r k e i),
    λ h. rebuild_from_complete o loaded (Registry.new s c) r k e (inr h),
  )
    where
      from_new :
          Memᴰ o (offers_of s c (Registry.new s c) k) ⊎ ((o.cap_id ≡ k) × Advertised s c loaded o)
          → (o.cap_id ≡ k) × Advertised s c loaded o
      from_new (inl i) = elim (subst (λ l. Memᴰ o l) (offers_of-new k) i) [ ]
      from_new (inr h) = h

  -- Every version that the extension offers parses.
  abbrev pub Readable : List (Offered s c) → Type 0
  Readable offers = All (λ x. is_some (parse_version x.version) ≡ true) offers

  offer_all-Readable :
      (ext : Text) (kind : ExtensionKind) (offers : List (Offered s c)) (r : CapabilityRegistry s c)
      → Readable offers
      → (r' : CapabilityRegistry s c) × (offer_all s c ext kind offers r ≡ ok r')
  unfolding offer_all
  offer_all-Readable ext kind [] r h = (r, refl)
  offer_all-Readable ext kind (x ∷ offers) r h = elim (Option-cases (parse_version x.version)) [
    | inl bad ↦ absurd (cc (rw bad at h.0))
    | inr (v, good) ↦ rw (good, offer_all) (offer_all-Readable ext kind offers _ h.1)
  ]

  Readable-offer_all :
      (ext : Text) (kind : ExtensionKind) (offers : List (Offered s c))
      (r r' : CapabilityRegistry s c)
      → offer_all s c ext kind offers r ≡ ok r'
      → Readable offers
  unfolding offer_all
  Readable-offer_all ext kind [] r r' e = tt
  Readable-offer_all ext kind (x ∷ offers) r r' e = elim (Option-cases (parse_version x.version)) [
    | inl bad ↦ absurd (cc (rw (bad, offer_all) at e))
    | inr (v, good) ↦
        (rw good refl, Readable-offer_all ext kind offers _ r' (rw (good, offer_all) at e))
  ]

  abbrev pub AllReadable : Loaded s c → Type 0
  AllReadable loaded = All (λ e. Readable e.1.offered) loaded

  rebuild_from-AllReadable :
      (loaded : Loaded s c) (r : CapabilityRegistry s c)
      → AllReadable loaded
      → (r' : CapabilityRegistry s c) × (rebuild_from s c loaded r ≡ ok r')
  unfolding rebuild_from
  rebuild_from-AllReadable [] r h = (r, refl)
  rebuild_from-AllReadable ((id, ext) ∷ loaded) r h =
      let (m, good) = offer_all-Readable id ext.kind ext.offered r h.0 in
      rw (good, rebuild_from) (rebuild_from-AllReadable loaded m h.1)

  AllReadable-rebuild_from :
      (loaded : Loaded s c) (r r' : CapabilityRegistry s c)
      → rebuild_from s c loaded r ≡ ok r'
      → AllReadable loaded
  unfolding rebuild_from
  AllReadable-rebuild_from [] r r' e = tt
  AllReadable-rebuild_from ((id, ext) ∷ loaded) r r' e =
      elim (outcome_cases (offer_all s c id ext.kind ext.offered r)) [
        | inl (_, bad) ↦ absurd (cc (rw (bad, rebuild_from) at e))
        | inr (m, good) ↦ (
          Readable-offer_all id ext.kind ext.offered r m good,
          AllReadable-rebuild_from loaded m r' (rw (good, rebuild_from) at e),
        )
      ]

  -- A registry can be rebuilt exactly when every offered version parses.
  pub rebuilds :
      (loaded : Loaded s c)
      → ((r : CapabilityRegistry s c) × (rebuild_registry s c loaded ≡ ok r)) ↔ AllReadable loaded
  unfolding rebuild_registry
  rebuilds loaded = (
    λ h. AllReadable-rebuild_from loaded _ _ h.1,
    rebuild_from-AllReadable loaded (Registry.new s c),
  )
