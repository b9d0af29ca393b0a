-- ===== src/Base/Sorting.antt =====
-- `Vec::sort`, as an insertion sort by a Boolean order, and the order of byte strings.
use mathlib.Core.Path.{◌≡◌, refl}
use mathlib.Core.Logic.{◌↔◌, ◌⊎◌, inl, inr}
use mathlib.Core.Bool.{Bool, true, false, ◌&&◌, ◌||◌}
use mathlib.Core.List.{List, [], ◌∷◌, Memᴰ}
use native.Mathlib.Omega.{arith}
use greentic_designer_extens.Base.Tests.{if◌then◌else◌, Bool-cases, ltb, ◌==◌}
use greentic_designer_extens.Base.Bytes.{Text}

abbrev pub text_leb : Text → Text → Bool
text_leb [] t = true
text_leb (x ∷ s) [] = false
text_leb (x ∷ s) (y ∷ t) = ltb x y || (x == y && text_leb s t)

pub text_leb-total : (s t : Text) → (text_leb s t ≡ true) ⊎ (text_leb t s ≡ true)
text_leb-total [] t = inl refl
text_leb-total (x ∷ s) [] = inr refl
text_leb-total (x ∷ s) (y ∷ t) = ground (arith, text_leb-total s t)

module _ {ℓ} {A : Type ℓ} (before : A → A → Bool) where
  unfoldable pub insert_sorted : A → List A → List A
  insert_sorted x [] = x ∷ []
  insert_sorted x (y ∷ ys) =
      let rest = insert_sorted x ys in if before x y then x ∷ y ∷ ys else y ∷ rest

  unfoldable pub sort : List A → List A
  unfolding insert_sorted
  sort [] = []
  sort (x ∷ xs) = insert_sorted x (sort xs)

  pub data Sorted : List A → Type ℓ where
    none : Sorted []
    one : (x : A) → Sorted (x ∷ [])
    more : (x y : A) (ys : List A) → before x y ≡ true → Sorted (y ∷ ys) → Sorted (x ∷ y ∷ ys)

  Memᴰ-under :
      (x d : A) (us bs : List A) → Memᴰ d us ↔ Memᴰ d bs → Memᴰ d (x ∷ us) ↔ Memᴰ d (x ∷ bs)
  Memᴰ-under x d us bs ih = (to, from)
    where
      to : Memᴰ d (x ∷ us) → Memᴰ d (x ∷ bs)
      to (Memᴰ.head same) = Memᴰ.head same
      to (Memᴰ.tail i) = Memᴰ.tail (ih.0 i)

      from : Memᴰ d (x ∷ bs) → Memᴰ d (x ∷ us)
      from (Memᴰ.head same) = Memᴰ.head same
      from (Memᴰ.tail i) = Memᴰ.tail (ih.1 i)

  Memᴰ-swapped : (x y d : A) (ys : List A) → Memᴰ d (x ∷ y ∷ ys) → Memᴰ d (y ∷ x ∷ ys)
  Memᴰ-swapped x y d ys (Memᴰ.head same) = Memᴰ.tail (Memᴰ.head same)
  Memᴰ-swapped x y d ys (Memᴰ.tail (Memᴰ.head same)) = Memᴰ.head same
  Memᴰ-swapped x y d ys (Memᴰ.tail (Memᴰ.tail i)) = Memᴰ.tail (Memᴰ.tail i)

  insert_sorted-Memᴰ : (x : A) (ys : List A) (d : A) → Memᴰ d (insert_sorted x ys) ↔ Memᴰ d (x ∷ ys)
  unfolding insert_sorted
  insert_sorted-Memᴰ x [] d = (λ i. i, λ i. i)
  insert_sorted-Memᴰ x (y ∷ ys) d =
      let below = Memᴰ-under y d (insert_sorted x ys) (x ∷ ys) (insert_sorted-Memᴰ x ys d) in
      elim (Bool-cases (before x y)) [
        | inl e ↦ rw e (λ i. i, λ i. i)
        | inr e ↦
            rw e (λ i. Memᴰ-swapped y x d ys (below.0 i), λ i. below.1 (Memᴰ-swapped x y d ys i))
      ]

  pub sort-Memᴰ : (xs : List A) (d : A) → Memᴰ d (sort xs) ↔ Memᴰ d xs
  unfolding sort
  sort-Memᴰ [] d = (λ i. i, λ i. i)
  sort-Memᴰ (x ∷ xs) d =
      let below = Memᴰ-under x d (sort xs) xs (sort-Memᴰ xs d) in
      (
        λ i. below.0 ((insert_sorted-Memᴰ x (sort xs) d).0 i),
        λ i. (insert_sorted-Memᴰ x (sort xs) d).1 (below.1 i),
      )

  module _ (total : (a b : A) → (before a b ≡ true) ⊎ (before b a ≡ true)) where
    turned : (x y : A) → before x y ≡ false → before y x ≡ true
    turned x y e = elim (total x y) [ inl h ↦ absurd (cc (h, e)) | inr h ↦ h ]

    insert_below :
        (x y : A) (ys : List A)
        → before y x ≡ true
        → Sorted (y ∷ ys)
        → Sorted (y ∷ insert_sorted x ys)
    unfolding insert_sorted
    insert_below x y _ h (one _) = more y x [] h (one x)
    insert_below x y _ h (more _ z zs k rest) = elim (Bool-cases (before x z)) [
      | inl e ↦ rw e (more y x (z ∷ zs) h (more x z zs e rest))
      | inr e ↦ rw e (more y z _ k (insert_below x z zs (turned x z e) rest))
    ]

    insert_sorted-Sorted : (x : A) (ys : List A) → Sorted ys → Sorted (insert_sorted x ys)
    unfolding insert_sorted
    insert_sorted-Sorted x [] h = one x
    insert_sorted-Sorted x (y ∷ ys) h = elim (Bool-cases (before x y)) [
      | inl e ↦ rw e (more x y ys e h)
      | inr e ↦ rw e (insert_below x y ys (turned x y e) h)
    ]

    pub sort-Sorted : (xs : List A) → Sorted (sort xs)
    unfolding sort
    sort-Sorted [] = none
    sort-Sorted (x ∷ xs) = insert_sorted-Sorted x (sort xs) (sort-Sorted xs)
