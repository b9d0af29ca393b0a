-- ===== src/Runtime/Rebuild.antt =====
-- What the registry that `rebuild_registry` derives offers, and when it can be derived.
use greentic_designer_extens.Base.{
  ◌≡◌, refl, subst, ◌↔◌, ◌⊎◌, inl, inr, false, Option, none, some, List, [], ◌∷◌, ◌++◌, Memᴰ, arith,
  Text, Option-cases, Memᴰ-append, Memᴰ-append_left, Memᴰ-append_right, if◌then◌else◌, Bool-cases,
}
use greentic_designer_extens.Base.Outcome.{ok}
use greentic_designer_extens.Capability.Contract.{Semver, Contract}
use greentic_designer_extens.Capability.Registry.{
  CapabilityRegistry, OfferedBinding, get, push_at, add_offering, offers_of,
}
use greentic_designer_extens.Runtime.Defs.{Offered, LoadedExtension, Loaded, offer_all}

module _ (s : Semver) (c : Contract) where
  open s use {Version, parse_version}
  open c use {CapabilityId, cap_eq, cap_eq_iff, ExtensionKind}

  abbrev pub binding : Text → ExtensionKind → Offered s c → Version → OfferedBinding s c
  binding ext kind offer v = record {
    extension_id = ext;
    cap_id = offer.id;
    version = v;
    kind = kind;
    export_path = [];
  }

  -- The binding is for one of the offers, whose version parses.
  abbrev pub Among : Text → ExtensionKind → List (Offered s c) → OfferedBinding s c → Type 0
  Among ext kind offers o =
      (offer : Offered s c) × (v : Version) × Memᴰ offer offers
      × (parse_version offer.version ≡ some v)
      × (o ≡ binding ext kind offer v)

  -- The binding is for an offer of a loaded extension.
  abbrev pub Advertised : Loaded s c → OfferedBinding s c → Type 0
  Advertised loaded o =
      (id : Text) × (ext : LoadedExtension s c) × Memᴰ (id, ext) loaded
      × Among id ext.kind ext.offered o

  offers_at : Option (List (OfferedBinding s c)) → List (OfferedBinding s c)
  offers_at none = []
  offers_at (some os) = os

  offers-push_at :
      (k j : CapabilityId) (o : OfferedBinding s c)
      (m : List (CapabilityId × List (OfferedBinding s c)))
      → offers_at (get s c j (push_at s c k o m))
        ≡ (if cap_eq k j then offers_at (get s c j m) ++ (o ∷ []) else offers_at (get s c j m))
  unfolding get push_at offers_at
  offers-push_at k j o [] = ground arith
  offers-push_at k j o ((i, os) ∷ m) =
      ground (arith, cap_eq_iff k j, cap_eq_iff i k, cap_eq_iff i j, offers-push_at k j o m)

  offers_of-at :
      (r : CapabilityRegistry s c) (k : CapabilityId)
      → offers_of s c r k ≡ offers_at (get s c k r.offerings)
  unfolding offers_of offers_at
  offers_of-at r k = elim (Option-cases (get s c k r.offerings)) [
    | inl e ↦ rw (e, offers_of) refl
    | inr (os, e) ↦ rw (e, offers_of) refl
  ]

  offers_of-add_offering :
      (b : OfferedBinding s c) (r : CapabilityRegistry s c) (k : CapabilityId)
      → offers_of s c (add_offering s c b r) k
        ≡ (if cap_eq b.cap_id k then offers_of s c r k ++ (b ∷ []) else offers_of s c r k)
  unfolding add_offering
  offers_of-add_offering b r k =
      rw (offers_of-at (add_offering s c b r) k, offers_of-at r k)
        (offers-push_at b.cap_id k b r.offerings)

  mem-add_offering :
      (o b : OfferedBinding s c) (r : CapabilityRegistry s c) (k : CapabilityId)
      → Memᴰ o (offers_of s c (add_offering s c b r) k)
        ↔ (Memᴰ o (offers_of s c r k) ⊎ ((o ≡ b) × (b.cap_id ≡ k)))
  mem-add_offering o b r k =
      rw (offers_of-add_offering b r k) (elim (Bool-cases (cap_eq b.cap_id k)) [
        | inl same ↦ rw same (to ((cap_eq_iff _ _).0 same), from)
        | inr other ↦ rw other (λ i. inl i, back other)
      ])
    where
      to :
          b.cap_id ≡ k
          → Memᴰ o (offers_of s c r k ++ (b ∷ []))
          → Memᴰ o (offers_of s c r k) ⊎ ((o ≡ b) × (b.cap_id ≡ k))
      to same i = elim (Memᴰ-append o (offers_of s c r k) (b ∷ []) i) [
        | inl j ↦ inl j
        | inr (Memᴰ.head e) ↦ inr (e, same)
        | inr (Memᴰ.tail j) ↦ elim j [ ]
      ]

      from :
          Memᴰ o (offers_of s c r k) ⊎ ((o ≡ b) × (b.cap_id ≡ k))
          → Memᴰ o (offers_of s c r k ++ (b ∷ []))
      from (inl i) = Memᴰ-append_left o (offers_of s c r k) (b ∷ []) i
      from (inr (e, _)) = Memᴰ-append_right o (offers_of s c r k) (b ∷ []) (Memᴰ.head e)

      back :
          cap_eq b.cap_id k ≡ false
          → Memᴰ o (offers_of s c r k) ⊎ ((o ≡ b) × (b.cap_id ≡ k))
          → Memᴰ o (offers_of s c r k)
      back other (inl i) = i
      back other (inr (_, same)) = absurd (cc (other, (cap_eq_iff b.cap_id k).1 same))

  Among-tail :
      (ext : Text) (kind : ExtensionKind) (offer : Offered s c) (offers : List (Offered s c))
      (o : OfferedBinding s c)
      → Among ext kind offers o
      → Among ext kind (offer ∷ offers) o
  Among-tail ext kind offer offers o (x, v, i, p, e) = (x, v, Memᴰ.tail i, p, e)

  -- What `offer_all` adds to a registry.
  module _ (ext : Text) (kind : ExtensionKind) (o : OfferedBinding s c) where
    pub offer_all_sound :
        (offers : List (Offered s c)) (r r' : CapabilityRegistry s c) (k : CapabilityId)
        → offer_all s c ext kind offers r ≡ ok r'
        → Memᴰ o (offers_of s c r' k)
        → Memᴰ o (offers_of s c r k) ⊎ ((o.cap_id ≡ k) × Among ext kind offers o)
    unfolding offer_all
    offer_all_sound [] r r' k e i = inl (subst (λ x. Memᴰ o (offers_of s c x k)) (cc (e)) i)
    offer_all_sound (offer ∷ offers) r r' k e i =
        elim (Option-cases (parse_version offer.version)) [
          | inl bad ↦ absurd (cc (rw (bad, offer_all) at e))
          | inr (v, good) ↦ elim (offer_all_sound offers _ r' k (rw (good, offer_all) at e) i) [
            | inr (at_k, among) ↦ inr (at_k, Among-tail ext kind offer offers o among)
            | inl j ↦ elim ((mem-add_offering o (binding ext kind offer v) r k).0 j) [
              | inl before ↦ inl before
              | inr (same, at_k) ↦ inr (rw same at_k, (offer, v, Memᴰ.head refl, good, same))
            ]
          ]
        ]

    pub offer_all_complete :
        (offers : List (Offered s c)) (r r' : CapabilityRegistry s c) (k : CapabilityId)
        → offer_all s c ext kind offers r ≡ ok r'
        → Memᴰ o (offers_of s c r k) ⊎ ((o.cap_id ≡ k) × Among ext kind offers o)
        → Memᴰ o (offers_of s c r' k)
    unfolding offer_all
    offer_all_complete [] r r' k e (inl i) = subst (λ x. Memᴰ o (offers_of s c x k)) (cc (e)) i
    offer_all_complete [] r r' k e (inr (_, (_, _, i, _, _))) = elim i [ ]
    offer_all_complete (offer ∷ offers) r r' k e h =
        elim (Option-cases (parse_version offer.version)) [
          | inl bad ↦ absurd (cc (rw (bad, offer_all) at e))
          | inr (v, good) ↦
              offer_all_complete offers _ r' k (rw (good, offer_all) at e) (step v good h)
        ]
      where
        step :
            (v : Version)
            → parse_version offer.version ≡ some v
            → Memᴰ o (offers_of s c r k) ⊎ ((o.cap_id ≡ k) × Among ext kind (offer ∷ offers) o)
            → Memᴰ o (offers_of s c (add_offering s c (binding ext kind offer v) r) k)
              ⊎ ((o.cap_id ≡ k) × Among ext kind offers o)
        step v good (inl i) = inl ((mem-add_offering o _ r k).1 (inl i))
        step v good (inr (at_k, (x, w, Memᴰ.tail i, p, b))) = inr (at_k, (x, w, i, p, b))
        step v good (inr (at_k, (x, w, Memᴰ.head same, parses, bound))) =
            let version : w ≡ v = cc (same, parses, good) in
            let here : o ≡ binding ext kind offer v = rw (← same, ← version) bound in
            inl ((mem-add_offering o _ r k).1 (inr (here, rw here at at_k)))
