-- ===== src/Base/Lists.antt =====
-- Lists measured by native numbers, Boolean searches through them, and predicates by recursion.
use Prim.Native.Nat.{ℕ, suc, ◌+◌, ◌≤◌}
use mathlib.Core.Path.{◌≡◌, refl, sym, subst}
use mathlib.Core.Logic.{◌⊎◌, inl, inr}
use mathlib.Core.Bool.{Bool, true, false, ◌&&◌, ◌||◌}
use mathlib.Core.Option.{Option, none, some}
use mathlib.Core.List.{List, [], ◌∷◌, ◌++◌, Memᴰ}
use native.Mathlib.Omega.{arith}
use greentic_designer_extens.Base.Tests.{if◌then◌else◌, Bool-cases, Option-cases}

module _ {ℓ} {A : Type ℓ} where
  abbrev pub length : List A → ℕ
  length [] = 0
  length (x ∷ xs) = suc (length xs)

  -- `Iterator::any` and `Iterator::all`.
  abbrev pub any : (A → Bool) → List A → Bool
  any p [] = false
  any p (x ∷ xs) = p x || any p xs

  abbrev pub all : (A → Bool) → List A → Bool
  all p [] = true
  all p (x ∷ xs) = p x && all p xs

  -- `Iterator::filter` and `Vec::retain`, by a Boolean test.
  abbrev pub keep : (A → Bool) → List A → List A
  keep p [] = []
  keep p (x ∷ xs) = if p x then x ∷ keep p xs else keep p xs

  -- `filter_map`: the values of a partial function, in order.
  abbrev pub collect {κ} : {B : Type κ} → (A → Option B) → List A → List B
  collect f [] = []
  collect f (x ∷ xs) = elim (f x) [ none ↦ collect f xs | some y ↦ y ∷ collect f xs ]

  abbrev pub All {κ} : (A → Type κ) → List A → Type κ
  All P [] = Unit
  All P (x ∷ xs) = P x × All P xs

  pub length-append : (xs ys : List A) → length (xs ++ ys) ≡ length xs + length ys
  length-append [] ys = omega arith
  length-append (x ∷ xs) ys = omega (arith, length-append xs ys)

  pub Memᴰ-append_right : (a : A) (xs ys : List A) → Memᴰ a ys → Memᴰ a (xs ++ ys)
  Memᴰ-append_right a [] ys h = h
  Memᴰ-append_right a (x ∷ xs) ys h = Memᴰ.tail (Memᴰ-append_right a xs ys h)

  pub Memᴰ-append_left : (a : A) (xs ys : List A) → Memᴰ a xs → Memᴰ a (xs ++ ys)
  Memᴰ-append_left a [] ys h = elim h [ ]
  Memᴰ-append_left a (x ∷ xs) ys (Memᴰ.head e) = Memᴰ.head e
  Memᴰ-append_left a (x ∷ xs) ys (Memᴰ.tail h) = Memᴰ.tail (Memᴰ-append_left a xs ys h)

  pub Memᴰ-append : (a : A) (xs ys : List A) → Memᴰ a (xs ++ ys) → Memᴰ a xs ⊎ Memᴰ a ys
  Memᴰ-append a [] ys h = inr h
  Memᴰ-append a (x ∷ xs) ys (Memᴰ.head e) = inl (Memᴰ.head e)
  Memᴰ-append a (x ∷ xs) ys (Memᴰ.tail h) = elim (Memᴰ-append a xs ys h) [
    | inl l ↦ inl (Memᴰ.tail l)
    | inr r ↦ inr r
  ]

  pub any_found :
      (p : A → Bool) (xs : List A) → any p xs ≡ true → (a : A) × Memᴰ a xs × (p a ≡ true)
  any_found p [] h = cc
  any_found p (x ∷ xs) h = elim (Bool-cases (p x)) [
    | inl hit ↦ (x, Memᴰ.head refl, hit)
    | inr miss ↦ let (a, i, e) = any_found p xs (rw miss at h) in (a, Memᴰ.tail i, e)
  ]

  pub any_of_mem : (p : A → Bool) (a : A) (xs : List A) → Memᴰ a xs → p a ≡ true → any p xs ≡ true
  any_of_mem p a [] h e = elim h [ ]
  any_of_mem p a (x ∷ xs) (Memᴰ.head e) h = rw (← e, h)
  any_of_mem p a (x ∷ xs) (Memᴰ.tail i) h = ground (arith, any_of_mem p a xs i h)

  keep_cases :
      (p : A → Bool) (a x : A) (xs : List A)
      → p x ≡ true
      → (Memᴰ a (keep p xs) → Memᴰ a xs × (p a ≡ true))
      → Memᴰ a (x ∷ keep p xs)
      → Memᴰ a (x ∷ xs) × (p a ≡ true)
  keep_cases p a x xs hit rec (Memᴰ.head e) = (Memᴰ.head e, rw e hit)
  keep_cases p a x xs hit rec (Memᴰ.tail i) = let (j, e) = rec i in (Memᴰ.tail j, e)

  pub mem-keep :
      (p : A → Bool) (a : A) (xs : List A) → Memᴰ a (keep p xs) → Memᴰ a xs × (p a ≡ true)
  mem-keep p a [] h = elim h [ ]
  mem-keep p a (x ∷ xs) h = elim (Bool-cases (p x)) [
    | inl hit ↦ keep_cases p a x xs hit (mem-keep p a xs) (rw hit at h)
    | inr miss ↦ let (i, e) = mem-keep p a xs (rw miss at h) in (Memᴰ.tail i, e)
  ]

  pub mem-keep_of :
      (p : A → Bool) (a : A) (xs : List A) → Memᴰ a xs → p a ≡ true → Memᴰ a (keep p xs)
  mem-keep_of p a [] h e = elim h [ ]
  mem-keep_of p a (x ∷ xs) (Memᴰ.head e) h = rw (← e, h) (Memᴰ.head refl)
  mem-keep_of p a (x ∷ xs) (Memᴰ.tail i) h = elim (Bool-cases (p x)) [
    | inl hit ↦ rw hit (Memᴰ.tail (mem-keep_of p a xs i h))
    | inr miss ↦ rw miss (mem-keep_of p a xs i h)
  ]

  pub length-keep-le : (p : A → Bool) (xs : List A) → length (keep p xs) ≤ length xs
  length-keep-le p [] = omega arith
  length-keep-le p (x ∷ xs) = ground (arith, length-keep-le p xs)

  pub All-of_mem {κ} : (P : A → Type κ) (xs : List A) → ((a : A) → Memᴰ a xs → P a) → All P xs
  All-of_mem P [] h = tt
  All-of_mem P (x ∷ xs) h = (h x (Memᴰ.head refl), All-of_mem P xs (λ a i. h a (Memᴰ.tail i)))

  pub mem_of_All {κ} : (P : A → Type κ) (a : A) (xs : List A) → All P xs → Memᴰ a xs → P a
  mem_of_All P a [] h i = elim i [ ]
  mem_of_All P a (x ∷ xs) h (Memᴰ.head e) = subst P (sym e) h.0
  mem_of_All P a (x ∷ xs) h (Memᴰ.tail i) = mem_of_All P a xs h.1 i

module _ {ℓ κ} {A : Type ℓ} {B : Type κ} (f : A → Option B) where
  -- Where a value that `filter_map` keeps comes from.
  abbrev pub Source : B → List A → Type (ℓ ⊔ κ)
  Source b xs = (a : A) × Memᴰ a xs × (f a ≡ some b)

  Source-tail : (b : B) (x : A) (xs : List A) → Source b xs → Source b (x ∷ xs)
  Source-tail b x xs (a, i, e) = (a, Memᴰ.tail i, e)

  Source-here :
      (b y : B) (x : A) (xs : List A)
      → f x ≡ some y
      → (Memᴰ b (collect f xs) → Source b xs)
      → Memᴰ b (y ∷ collect f xs)
      → Source b (x ∷ xs)
  Source-here b y x xs e rec (Memᴰ.head same) = (x, Memᴰ.head refl, rw same e)
  Source-here b y x xs e rec (Memᴰ.tail i) = Source-tail b x xs (rec i)

  pub mem-collect : (b : B) (xs : List A) → Memᴰ b (collect f xs) → Source b xs
  mem-collect b [] h = elim h [ ]
  mem-collect b (x ∷ xs) h = elim (Option-cases (f x)) [
    | inl e ↦ Source-tail b x xs (mem-collect b xs (rw (e, collect) at h))
    | inr (y, e) ↦ Source-here b y x xs e (mem-collect b xs) (rw (e, collect) at h)
  ]

  pub mem-collect_of :
      (a : A) (b : B) (xs : List A) → Memᴰ a xs → f a ≡ some b → Memᴰ b (collect f xs)
  mem-collect_of a b [] i e = elim i [ ]
  mem-collect_of a b (x ∷ xs) (Memᴰ.head same) e = rw (← same, e, collect) (Memᴰ.head refl)
  mem-collect_of a b (x ∷ xs) (Memᴰ.tail i) e = elim (Option-cases (f x)) [
    | inl miss ↦ rw (miss, collect) (mem-collect_of a b xs i e)
    | inr (y, hit) ↦ rw (hit, collect) (Memᴰ.tail (mem-collect_of a b xs i e))
  ]
