-- ===== src/Dispatch/Resolved.antt =====
-- `resolve_iface_versions`: the newest version that a guest exports.
use greentic_designer_extens.Base.{
  ℕ, zero, suc, ◌+◌, ◌≤◌, ◌<◌, ◌≡◌, refl, ◌⊎◌, inl, inr, true, false, List, [], ◌∷◌, ◌++◌, arith,
  Text, codes, Bool-cases, leb, leb→le,
}
use greentic_designer_extens.Base.Outcome.{ok, err}
use greentic_designer_extens.Runtime.Defs.{wasmtime}
use greentic_designer_extens.Dispatch.Guest.{Guest, resolve_iface_versions}

-- The version 0.n.0, for a digit n.
abbrev pub minor : ℕ → Text
minor n = codes "0." ++ ((48 + n) ∷ codes ".0")

-- The versions from 0.n.0 down to 0.1.0.
abbrev pub descending : ℕ → List Text
descending zero = []
descending (suc n) = minor (suc n) ∷ descending n

-- The name of the interface at the version 0.n.0.
abbrev pub name_at : Text → ℕ → Text
name_at base n = base ++ (codes "@" ++ minor n)

-- Of the versions from 0.1.0 to 0.top.0, the interface is exported at 0.n.0, and at no newer one.
pub record IsNewest (g : Guest) (base : Text) (top n : ℕ) : Type 0 where
  pub low : 1 ≤ n
  pub high : n ≤ top
  pub exported : g.exports (name_at base n) ≡ true
  pub newer : (m : ℕ) → n < m → m ≤ top → g.exports (name_at base m) ≡ false

abbrev pub Unexported : Guest → Text → ℕ → Type 0
Unexported g base top = (m : ℕ) → 1 ≤ m → m ≤ top → g.exports (name_at base m) ≡ false

-- What holds of a version and holds of the older ones.
and_below :
    (P : ℕ → Type 0) (top low : ℕ)
    → P (suc top)
    → ((m : ℕ) → low ≤ m → m ≤ top → P m)
    → (m : ℕ) → low ≤ m
    → m ≤ suc top
    → P m
and_below P top low p below m l h = elim (Bool-cases (leb m top)) [
  | inl e ↦ below m l (leb→le m top e)
  | inr e ↦ let same : m ≡ suc top = ground arith in rw same p
]

-- The newest version that is exported is found, or none is exported.
pub resolve_iface_versions_lem :
    (g : Guest) (base : Text) (top : ℕ)
    → ((n : ℕ) × IsNewest g base top n
        × (resolve_iface_versions g base (descending top) ≡ ok (name_at base n, minor n)))
      ⊎ (Unexported g base top
          × (resolve_iface_versions g base (descending top) ≡ err (wasmtime base)))
unfolding resolve_iface_versions
resolve_iface_versions_lem g base zero = inr ((λ m l h. absurd (omega (arith, l, h))), refl)
resolve_iface_versions_lem g base (suc top) =
    elim (Bool-cases (g.exports (name_at base (suc top)))) [
      | inl e ↦ inl (
        suc top,
        record {
          low = omega arith;
          high = omega arith;
          exported = e;
          newer = λ m l h. absurd (omega (arith, l, h));
        },
        rw e refl,
      )
      | inr e ↦ elim (resolve_iface_versions_lem g base top) [
        | inl (n, newest, found) ↦ inl (
          n,
          record {
            low = newest.low;
            high = omega (arith, newest.high);
            exported = newest.exported;
            newer = λ m l h.
                and_below (λ k. g.exports (name_at base k) ≡ false) top (suc n) e
                  (λ k i j. newest.newer k (omega (arith, i)) j) m (omega (arith, l)) h;
          },
          rw e found,
        )
        | inr (none_there, failed) ↦
            inr
              (and_below (λ k. g.exports (name_at base k) ≡ false) top 1 e none_there, rw e failed)
      ]
    ]
