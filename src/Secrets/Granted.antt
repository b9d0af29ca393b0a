-- ===== src/Secrets/Granted.antt =====
-- Which secrets an extension can read, by its declarations.
use greentic_designer_extens.Base.{
  ℕ, zero, suc, ◌≡◌, refl, ap, subst, ◌≢◌, ◌↔◌, ◌⊎◌, inl, inr, Bool, true, false, not, ◌&&◌, none,
  some, [], ◌∷◌, ◌++◌, Memᴰ, Text, codes, text_eq, text_eq_iff, text_eq_refl, ltb, arith, length,
  length-append, starts_with, strip_prefix, strip_prefix-eq-some_iff, trim_end_matches, ◌==◌,
  Bool-cases, Option-cases, strip_prefix-append, trim_rounds, strip_suffix, strip_suffix_sound,
  Memᴰ-append,
}
use greentic_designer_extens.Secrets.Defs.{
  byte_at, trim_start_byte, is_empty, after_scheme, declaration_is_specific, covers,
}

-- The uri is the declared one, or a path below it.
abbrev pub Below : Text → Text → Type 0
Below allowed uri = (uri ≡ allowed) ⊎ ((rest : Text) × (uri ≡ allowed ++ (b'/' ∷ rest)))

byte_at-append : (p : Text) (x : ℕ) (r : Text) → byte_at (length p) (p ++ (x ∷ r)) ≡ some x
byte_at-append [] x r = refl
byte_at-append (y ∷ p) x r = byte_at-append p x r

pub covers_sound : (uri allowed : Text) → covers uri allowed ≡ true → Below allowed uri
unfolding covers
covers_sound uri allowed h = elim (Bool-cases (text_eq uri allowed)) [
  | inl same ↦ inl ((text_eq_iff uri allowed).0 same)
  | inr other ↦ elim (Option-cases (strip_prefix allowed uri)) [
    | inl e ↦ absurd (ground (arith, e, other))
    | inr (r, e) ↦ inr (rest r ((strip_prefix-eq-some_iff allowed uri r).0 e) (rw other at h))
  ]
]
  where
    rest :
        (r : Text)
        → uri ≡ allowed ++ r
        → (ltb (length allowed) (length uri)
            && (starts_with allowed uri
                && elim (byte_at (length allowed) uri) [ none ↦ false | some x ↦ x == b'/' ]))
          ≡ true
        → (rest : Text) × (uri ≡ allowed ++ (b'/' ∷ rest))
    rest [] e k = absurd (ground (arith, ap length e, length-append allowed []))
    rest (x ∷ r) e k =
        let at_x : byte_at (length allowed) uri ≡ some x = rw e (byte_at-append allowed x r) in
        let slash : x ≡ b'/' = ground (arith, at_x) in (r, rw (← slash) e)

pub covers_complete : (uri allowed : Text) → Below allowed uri → covers uri allowed ≡ true
unfolding covers
covers_complete uri allowed (inl e) = rw e (rw (text_eq_refl allowed) refl)
covers_complete uri allowed (inr (rest, e)) = rw e (
    ground (
      arith,
      byte_at-append allowed b'/' rest,
      strip_prefix-append allowed (b'/' ∷ rest),
      length-append allowed (b'/' ∷ rest),
    ))

slashes_only : (n : ℕ) (s : Text) → trim_rounds n (codes "/") s ≡ [] → (x : ℕ) → Memᴰ x s → x ≡ b'/'
unfolding trim_rounds
slashes_only zero s h x i = elim (subst (λ t. Memᴰ x t) h i) [ ]
slashes_only (suc n) s h x i = elim (Option-cases (strip_suffix (codes "/") s)) [
  | inl e ↦ elim (subst (λ t. Memᴰ x t) (rw (e, trim_rounds) at h) i) [ ]
  | inr (r, e) ↦
      let same = strip_suffix_sound (codes "/") s r e in
      elim (Memᴰ-append x r (codes "/") (subst (λ t. Memᴰ x t) same i)) [
        | inl j ↦ slashes_only n r (rw (e, trim_rounds) at h) x j
        | inr (Memᴰ.head at_x) ↦ at_x
        | inr (Memᴰ.tail j) ↦ elim j [ ]
      ]
]

is_empty-nil : (s : Text) → is_empty s ≡ true → s ≡ []
is_empty-nil [] h = refl
is_empty-nil (x ∷ s) h = cc (h)

-- What is left of a text after its leading slashes.
trimmed :
    (s : Text)
    → ((trim_start_byte b'/' s ≡ []) × ((x : ℕ) → Memᴰ x s → x ≡ b'/'))
      ⊎ ((x : ℕ) × (t : Text) × (trim_start_byte b'/' s ≡ x ∷ t) × (x ≢ b'/') × Memᴰ x s)
trimmed [] = inl (refl, λ x i. elim i [ ])
trimmed (y ∷ s) = elim (Bool-cases (y == b'/')) [
  | inr other ↦ inr (y, s, rw other refl, ground (arith, other), Memᴰ.head refl)
  | inl slash ↦ elim (trimmed s) [
    | inl (e, only) ↦ inl (rw slash e, first only (ground (arith, slash)))
    | inr (x, t, e, ne, i) ↦ inr (x, t, rw slash e, ne, Memᴰ.tail i)
  ]
]
  where
    first : ((x : ℕ) → Memᴰ x s → x ≡ b'/') → y ≡ b'/' → (x : ℕ) → Memᴰ x (y ∷ s) → x ≡ b'/'
    first only e x (Memᴰ.head same) = cc (same, e)
    first only e x (Memᴰ.tail i) = only x i

-- A declaration names something: after the scheme, it is not slashes only.
abbrev pub Names : Text → Type 0
Names declared = (x : ℕ) × Memᴰ x (after_scheme declared) × (x ≢ b'/')

pub not-true : (b : Bool) → not b ≡ true → b ≡ false
not-true true h = cc (h)
not-true false h = refl

pub declaration_is_specific_iff :
    (declared : Text) → (declaration_is_specific declared ≡ true) ↔ Names declared
unfolding declaration_is_specific trim_end_matches
declaration_is_specific_iff declared =
    (to (trimmed (after_scheme declared)), from (trimmed (after_scheme declared)))
  where
    to :
        ((trim_start_byte b'/' (after_scheme declared) ≡ [])
            × ((x : ℕ) → Memᴰ x (after_scheme declared) → x ≡ b'/'))
          ⊎ ((x : ℕ) × (t : Text) × (trim_start_byte b'/' (after_scheme declared) ≡ x ∷ t)
              × (x ≢ b'/')
              × Memᴰ x (after_scheme declared))
        → declaration_is_specific declared ≡ true
        → Names declared
    to (inl (e, only)) h = cc (rw e at h)
    to (inr (x, t, e, ne, i)) h = (x, i, ne)

    full :
        (x : ℕ) (t : Text)
        → x ≢ b'/'
        → is_empty (trim_rounds (length (x ∷ t)) (codes "/") (x ∷ t)) ≡ false
    full x t ne = elim (Bool-cases (is_empty (trim_rounds (length (x ∷ t)) (codes "/") (x ∷ t)))) [
      | inl none_left ↦
          absurd (
            ne
              (slashes_only (length (x ∷ t)) (x ∷ t) (is_empty-nil _ none_left) x (Memᴰ.head refl)))
      | inr left ↦ left
    ]

    from :
        ((trim_start_byte b'/' (after_scheme declared) ≡ [])
            × ((x : ℕ) → Memᴰ x (after_scheme declared) → x ≡ b'/'))
          ⊎ ((x : ℕ) × (t : Text) × (trim_start_byte b'/' (after_scheme declared) ≡ x ∷ t)
              × (x ≢ b'/')
              × Memᴰ x (after_scheme declared))
        → Names declared
        → declaration_is_specific declared ≡ true
    from (inl (e, only)) (x, i, ne) = absurd (ne (only x i))
    from (inr (x, t, e, ne, i)) h = rw (e, full x t ne) refl
