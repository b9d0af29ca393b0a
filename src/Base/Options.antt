-- ===== src/Base/Options.antt =====
-- `?` on options, for `do` blocks.
use mathlib.Core.Path.{◌≡◌, refl}
use mathlib.Core.Option.{Option, none, some}

infixl 5 ◌>>=◌
abbrev pub ◌>>=◌ {ℓ κ} : {A : Type ℓ} {B : Type κ} → Option A → (A → Option B) → Option B
none >>= k = none
some a >>= k = k a

pub >>=-eq-some {ℓ κ} :
    {A : Type ℓ} {B : Type κ} (m : Option A) (k : A → Option B) {b : B}
    → (m >>= k) ≡ some b
    → (a : A) × (m ≡ some a) × (k a ≡ some b)
>>=-eq-some none k e = cc
>>=-eq-some (some a) k e = (a, refl, e)
