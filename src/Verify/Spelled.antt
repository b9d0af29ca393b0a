-- ===== src/Verify/Spelled.antt =====
-- `pack_relative_path`, of names written with slashes between them.
use greentic_designer_extens.Base.{
  ℕ, ◌≡◌, ◌≢◌, refl, ap, ◌∙◌, if◌then◌else◌, inl, inr, Bool, false, some, List, [], ◌∷◌, ◌++◌, map,
  Memᴰ, Text, codes, text_eq, text_eq_sound, All, split_on, push_head, ◌==◌, Bool-cases, arith,
}
use greentic_designer_extens.Runtime.Defs.{FilePath}
use greentic_designer_extens.Verify.Defs.{
  normal, later_components, components_of, join_normal, pack_relative_path,
}
use greentic_designer_extens.Verify.Paths.{IsName}

-- Names with a slash between two.
abbrev pub slashed : List Text → Text
slashed [] = []
slashed (n ∷ []) = n
slashed (n ∷ m ∷ names) = n ++ (b'/' ∷ slashed (m ∷ names))

-- The path that the names lead to, the first one first.
abbrev pub descend : FilePath → List Text → FilePath
descend dir [] = dir
descend dir (n ∷ names) = descend (n ∷ dir) names

no_slash_head : (c : ℕ) (s : Text) → (Memᴰ b'/' (c ∷ s) → ⊥) → (c == b'/') ≡ false
no_slash_head c s f = elim (Bool-cases (c == b'/')) [
  | inl e ↦ absurd (f (Memᴰ.head (ground arith)))
  | inr e ↦ e
]

split_on_name : (n : Text) → (Memᴰ b'/' n → ⊥) → split_on b'/' n ≡ n ∷ []
unfolding split_on push_head
split_on_name [] f = refl
split_on_name (c ∷ n) f = rw (no_slash_head c n f, split_on_name n (λ i. f (Memᴰ.tail i))) refl

split_on_slash :
    (n rest : Text)
    → (Memᴰ b'/' n → ⊥)
    → split_on b'/' (n ++ (b'/' ∷ rest)) ≡ n ∷ split_on b'/' rest
unfolding split_on push_head
split_on_slash [] rest f = refl
split_on_slash (c ∷ n) rest f =
    rw (no_slash_head c n f, split_on_slash n rest (λ i. f (Memᴰ.tail i))) refl

split_on-slashed :
    (n : Text) (names : List Text)
    → All IsName (n ∷ names)
    → split_on b'/' (slashed (n ∷ names)) ≡ n ∷ names
split_on-slashed n [] f = split_on_name n f.0.no_slash
split_on-slashed n (m ∷ names) f =
    split_on_slash n (slashed (m ∷ names)) f.0.no_slash
    ∙ ap (λ t. n ∷ t) (split_on-slashed m names f.1)

ne_text : (s t : Text) → (s ≡ t → ⊥) → text_eq s t ≡ false
ne_text s t f = elim (Bool-cases (text_eq s t)) [
  | inl e ↦ absurd (f (text_eq_sound s t e))
  | inr e ↦ e
]

later_components-names :
    (names : List Text) → All IsName names → later_components names ≡ map normal names
later_components-names [] f = refl
later_components-names (n ∷ names) f =
    rw
      (
        ne_text n [] f.0.inhabited,
        ne_text n (codes ".") f.0.no_dot,
        ne_text n (codes "..") f.0.no_dots,
        later_components-names names f.1,
      )
      refl

not_taken {ℓ} : {A : Type ℓ} (b : Bool) (x y : A) → b ≡ false → (if b then x else y) ≡ y
not_taken b x y e = rw e refl

components_of-names :
    (names : List Text) → All IsName names → components_of names ≡ map normal names
unfolding components_of
components_of-names [] f = refl
components_of-names (n ∷ []) f =
    not_taken _ _ _ (ne_text n (codes ".") f.0.no_dot) ∙ later_components-names (n ∷ []) f
components_of-names (n ∷ m ∷ names) f =
    not_taken _ _ _ (ne_text n [] f.0.inhabited)
    ∙ not_taken _ _ _ (ne_text n (codes ".") f.0.no_dot)
    ∙ later_components-names (n ∷ m ∷ names) f

join_normal-names :
    (dir : FilePath) (names : List Text)
    → join_normal dir (map normal names) ≡ some (descend dir names)
unfolding join_normal
join_normal-names dir [] = refl
join_normal-names dir (n ∷ names) = join_normal-names (n ∷ dir) names

slashed_inhabited : (n : Text) (names : List Text) → n ≢ [] → slashed (n ∷ names) ≢ []
slashed_inhabited n [] f = f
slashed_inhabited [] (m ∷ names) f = absurd (f refl)
slashed_inhabited (b ∷ n) (m ∷ names) f = λ e. cc

pack_inhabited :
    (dir : FilePath) (rel : Text)
    → rel ≢ []
    → pack_relative_path dir rel ≡ join_normal dir (components_of (split_on b'/' rel))
unfolding pack_relative_path
pack_inhabited dir [] f = absurd (f refl)
pack_inhabited dir (b ∷ rel) f = refl

-- Names, one or more, none of them empty, `.` or `..` or with a slash in it, that are written with a
-- slash between two are read back as the path that they lead to from the directory.
pub pack_relative_path-slashed :
    (dir : FilePath) (n : Text) (names : List Text)
    → All IsName (n ∷ names)
    → pack_relative_path dir (slashed (n ∷ names)) ≡ some (descend dir (n ∷ names))
pack_relative_path-slashed dir n names f =
    pack_inhabited dir (slashed (n ∷ names)) (slashed_inhabited n names f.0.inhabited)
    ∙ ap (λ ps. join_normal dir (components_of ps)) (split_on-slashed n names f)
    ∙ ap (join_normal dir) (components_of-names (n ∷ names) f)
    ∙ join_normal-names dir (n ∷ names)
