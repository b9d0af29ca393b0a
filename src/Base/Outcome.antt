-- ===== src/Base/Outcome.antt =====
-- `Result` with the error type of the caller, for `do` blocks.
use mathlib.Core.Path.{◌≡◌, refl}
use mathlib.Core.Logic.{◌⊎◌, inl, inr}

pub data Outcome {ℓ κ} (E : Type κ) (A : Type ℓ) : Type (ℓ ⊔ κ) where
  ok : A → Outcome E A
  err : E → Outcome E A

infixl 5 ◌>>=◌ ◌>>◌
abbrev pub ◌>>=◌ {ℓ κ μ} :
    {E : Type μ} {A : Type ℓ} {B : Type κ} → Outcome E A → (A → Outcome E B) → Outcome E B
ok a >>= k = k a
err e >>= k = err e

abbrev pub ◌>>◌ {κ μ} : {E : Type μ} {B : Type κ} → Outcome E (Unit {0}) → Outcome E B → Outcome E B
m >> k = m >>= λ _. k

pub >>=-eq-ok {ℓ κ μ} :
    {E : Type μ} {A : Type ℓ} {B : Type κ} (m : Outcome E A) (k : A → Outcome E B) {b : B}
    → (m >>= k) ≡ ok b
    → (a : A) × (m ≡ ok a) × (k a ≡ ok b)
>>=-eq-ok (ok a) k h = (a, refl, h)
>>=-eq-ok (err e) k h = cc

pub Outcome-cases {ℓ κ} :
    {E : Type ℓ} {A : Type κ} (x : Outcome E A) → ((e : E) × (x ≡ err e)) ⊎ ((a : A) × (x ≡ ok a))
Outcome-cases (err e) = inl (e, refl)
Outcome-cases (ok a) = inr (a, refl)
