-- ===== src/Capability/Latest.antt =====
-- `max_by` over versions: the winner is in the list, and no version in it is later.
use Prim.Native.Nat.{Ordering}
use greentic_designer_extens.Base.{◌≡◌, refl, ◌∙◌, ◌≢◌, List, [], ◌∷◌, Memᴰ}
use greentic_designer_extens.Capability.Contract.{Semver, IsOrdered, Contract}
use greentic_designer_extens.Capability.Registry.{OfferedBinding, max_from}

module _ (s : Semver) (c : Contract) (ordered : IsOrdered s) where
  open s use {Version, VersionReq, parse_req, req_matches, cmp}
  open c use {CapabilityId, cap_eq, cap_eq_iff}

  cmp_self : (a : Version) → cmp a a ≢ Ordering.lt
  cmp_self a h = cc (h, ordered.unflip a a h)

  -- `w` stands in the list, and no version in it is later.
  pub record Latest (w : OfferedBinding s c) (os : List (OfferedBinding s c)) : Type 0 where
    pub listed : Memᴰ w os
    pub newest : (o : OfferedBinding s c) → Memᴰ o os → cmp w.version o.version ≢ Ordering.lt

  -- The winner of a step of `max_by` is not older than either side.
  abbrev winner : OfferedBinding s c → OfferedBinding s c → Ordering → OfferedBinding s c
  winner a b o = elim o [ Ordering.gt ↦ a | _ ↦ b ]

  winner-Latest :
      (a b : OfferedBinding s c) (o : Ordering)
      → cmp a.version b.version ≡ o
      → Latest (winner a b o) (a ∷ b ∷ [])
  winner-Latest a b o e = record { listed = listed o; newest = newest o e }
    where
      listed : (o : Ordering) → Memᴰ (winner a b o) (a ∷ b ∷ [])
      listed Ordering.lt = Memᴰ.tail (Memᴰ.head refl)
      listed Ordering.eq = Memᴰ.tail (Memᴰ.head refl)
      listed Ordering.gt = Memᴰ.head refl

      beats :
          (o : Ordering)
          → cmp a.version b.version ≡ o
          → (cmp (winner a b o).version a.version ≢ Ordering.lt)
            × (cmp (winner a b o).version b.version ≢ Ordering.lt)
      beats Ordering.lt f = (λ h. cc (h, ordered.unflip a.version b.version f), cmp_self b.version)
      beats Ordering.eq f = (λ h. cc (f, ordered.unflip b.version a.version h), cmp_self b.version)
      beats Ordering.gt f = (cmp_self a.version, λ h. cc (h, f))

      newest :
          (o : Ordering)
          → cmp a.version b.version ≡ o
          → (x : OfferedBinding s c) → Memᴰ x (a ∷ b ∷ [])
          → cmp (winner a b o).version x.version ≢ Ordering.lt
      newest o f x (Memᴰ.head same) = rw same (beats o f).0
      newest o f x (Memᴰ.tail (Memᴰ.head same)) = rw same (beats o f).1
      newest o f x (Memᴰ.tail (Memᴰ.tail i)) = elim i [ ]

  pub max_from-Latest :
      (best : OfferedBinding s c) (os : List (OfferedBinding s c))
      → Latest (max_from s c best os) (best ∷ os)
  unfolding max_from
  max_from-Latest best [] = record { listed = Memᴰ.head refl; newest = only }
    where
      only :
          (x : OfferedBinding s c) → Memᴰ x (best ∷ []) → cmp best.version x.version ≢ Ordering.lt
      only x (Memᴰ.head same) = rw same (cmp_self best.version)
      only x (Memᴰ.tail i) = elim i [ ]
  max_from-Latest best (o ∷ os) =
      both (winner-Latest best o (cmp best.version o.version) refl)
        (max_from-Latest (winner best o (cmp best.version o.version)) os)
    where
      both :
          {w x : OfferedBinding s c}
          → Latest w (best ∷ o ∷ [])
          → Latest x (w ∷ os)
          → Latest x (best ∷ o ∷ os)
      both {w} {x} f g = record { listed = listed f.listed g.listed; newest = newest }
        where
          listed : Memᴰ w (best ∷ o ∷ []) → Memᴰ x (w ∷ os) → Memᴰ x (best ∷ o ∷ os)
          listed (Memᴰ.head e) (Memᴰ.head d) = Memᴰ.head (d ∙ e)
          listed (Memᴰ.tail (Memᴰ.head e)) (Memᴰ.head d) = Memᴰ.tail (Memᴰ.head (d ∙ e))
          listed (Memᴰ.tail (Memᴰ.tail i)) (Memᴰ.head d) = elim i [ ]
          listed i (Memᴰ.tail j) = Memᴰ.tail (Memᴰ.tail j)

          over :
              (y : OfferedBinding s c)
              → Memᴰ y (best ∷ o ∷ [])
              → cmp x.version y.version ≢ Ordering.lt
          over y i =
              ordered.trans x.version w.version y.version (g.newest w (Memᴰ.head refl))
                (f.newest y i)

          newest :
              (y : OfferedBinding s c)
              → Memᴰ y (best ∷ o ∷ os)
              → cmp x.version y.version ≢ Ordering.lt
          newest y (Memᴰ.head e) = over y (Memᴰ.head e)
          newest y (Memᴰ.tail (Memᴰ.head e)) = over y (Memᴰ.tail (Memᴰ.head e))
          newest y (Memᴰ.tail (Memᴰ.tail i)) = g.newest y (Memᴰ.tail i)
