-- ===== src/Base/Bytes.antt =====
-- Texts as lists of bytes, with the functions of Rust's `str` that the program calls on them.
use mathlib.Core.Path.{◌≡◌, refl, sym, ap}
use mathlib.Core.Logic.{◌↔◌, ◌≢◌, inl, inr}
use mathlib.Core.Bool.{Bool, true, false, ◌&&◌}
use mathlib.Core.Option
use mathlib.Core.Option.{Option, none, some}
use mathlib.Core.List.{List, [], ◌∷◌, ◌++◌, map}
use Prim.Native.Nat.{ℕ, zero, suc, ◌+◌, ◌-◌, ◌≤◌}
use Prim.Native.Char.{code}
use Prim.Native.String.{String}
use native.Mathlib.Omega.{arith}
use greentic_designer_extens.Base.Tests.{
  ◌==◌, leb, if◌then◌else◌, Bool-cases, Option-cases, is_some,
}
use greentic_designer_extens.Base.Lists.{length, length-append}

-- A `str` or `String` as its bytes.
abbrev pub Text : Type 0
Text = List ℕ

-- An ASCII literal as its bytes.
abbrev pub codes : String → Text
codes String.[] = []
codes (String.◌∷◌ c s) = code c ∷ codes s

abbrev pub text_eq : Text → Text → Bool
text_eq [] [] = true
text_eq [] (d ∷ t) = false
text_eq (c ∷ s) [] = false
text_eq (c ∷ s) (d ∷ t) = c == d && text_eq s t

pub text_eq_sound : (s t : Text) → text_eq s t ≡ true → s ≡ t
text_eq_sound [] [] h = refl
text_eq_sound [] (d ∷ t) h = cc
text_eq_sound (c ∷ s) [] h = cc
text_eq_sound (c ∷ s) (d ∷ t) h = ground (arith, text_eq_sound s t)

pub text_eq_refl : (s : Text) → text_eq s s ≡ true
text_eq_refl [] = refl
text_eq_refl (c ∷ s) = ground (arith, text_eq_refl s)

pub text_eq_complete : (s t : Text) → s ≡ t → text_eq s t ≡ true
text_eq_complete s t e = rw e (text_eq_refl t)

pub text_eq_iff : (s t : Text) → (text_eq s t ≡ true) ↔ (s ≡ t)
text_eq_iff s t = (text_eq_sound s t, text_eq_complete s t)

abbrev pub opt_eq : Option ℕ → Option ℕ → Bool
opt_eq none none = true
opt_eq none (some b) = false
opt_eq (some a) none = false
opt_eq (some a) (some b) = a == b

pub opt_eq_iff : (a b : Option ℕ) → (opt_eq a b ≡ true) ↔ (a ≡ b)
opt_eq_iff none none = ground arith
opt_eq_iff none (some b) = ground arith
opt_eq_iff (some a) none = ground arith
opt_eq_iff (some a) (some b) = ground arith

-- `str::strip_prefix`, the prefix first.
abbrev pub strip_prefix : Text → Text → Option Text
strip_prefix [] s = some s
strip_prefix (c ∷ p) [] = none
strip_prefix (c ∷ p) (d ∷ s) = if c == d then strip_prefix p s else none

-- `str::strip_suffix`, the suffix first.
abbrev pub strip_suffix : Text → Text → Option Text
strip_suffix suf [] = if text_eq suf [] then some [] else none
strip_suffix suf (c ∷ s) =
    let rest = Option.map (λ r. c ∷ r) (strip_suffix suf s) in
    if text_eq suf (c ∷ s) then some [] else rest

abbrev pub starts_with : Text → Text → Bool
starts_with p s = is_some (strip_prefix p s)

abbrev pub ends_with : Text → Text → Bool
ends_with p s = is_some (strip_suffix p s)

pub strip_prefix_sound : (p s r : Text) → strip_prefix p s ≡ some r → s ≡ p ++ r
strip_prefix_sound [] s r e = cc
strip_prefix_sound (c ∷ p) [] r e = cc
strip_prefix_sound (c ∷ p) (d ∷ s) r e = ground (arith, strip_prefix_sound p s r)

pub strip_prefix-append : (p r : Text) → strip_prefix p (p ++ r) ≡ some r
strip_prefix-append [] r = refl
strip_prefix-append (c ∷ p) r = ground (arith, strip_prefix-append p r)

pub strip_prefix-eq-some_iff : (p s r : Text) → (strip_prefix p s ≡ some r) ↔ (s ≡ p ++ r)
strip_prefix-eq-some_iff p s r = (strip_prefix_sound p s r, λ e. rw e (strip_prefix-append p r))

pub strip_suffix_sound : (suf s r : Text) → strip_suffix suf s ≡ some r → s ≡ r ++ suf
strip_suffix_sound suf [] r e = ground (arith, text_eq_sound suf [])
strip_suffix_sound suf (c ∷ s) r e = elim (Bool-cases (text_eq suf (c ∷ s))) [
  | inl whole ↦ ground (arith, text_eq_sound suf (c ∷ s))
  | inr part ↦
      let (q, found, same) = (Option.map-eq-some_iff _ _).0 (rw part at e) in
      rw (← same) (ap (λ t. c ∷ t) (strip_suffix_sound suf s q found))
]

longer_ne : (r : Text) (c : ℕ) (suf : Text) → c ∷ (r ++ suf) ≢ suf
longer_ne r c suf e = omega (arith, ap length e, length-append r suf)

pub strip_suffix-append : (suf r : Text) → strip_suffix suf (r ++ suf) ≡ some r
strip_suffix-append [] [] = refl
strip_suffix-append (c ∷ suf) [] = rw (text_eq_refl suf) (ground arith)
strip_suffix-append suf (c ∷ r) = elim (Bool-cases (text_eq suf (c ∷ (r ++ suf)))) [
  | inl whole ↦ absurd (longer_ne r c suf (sym (text_eq_sound _ _ whole)))
  | inr part ↦ rw (part, strip_suffix-append suf r)
]

pub strip_suffix-eq-some_iff : (suf s r : Text) → (strip_suffix suf s ≡ some r) ↔ (s ≡ r ++ suf)
strip_suffix-eq-some_iff suf s r =
    (strip_suffix_sound suf s r, λ e. rw e (strip_suffix-append suf r))

-- `str::trim_end_matches` for a non-empty suffix: one round for each time it is stripped.
unfoldable pub trim_rounds : ℕ → Text → Text → Text
trim_rounds zero suf s = s
trim_rounds (suc n) suf s = elim (strip_suffix suf s) [ none ↦ s | some r ↦ trim_rounds n suf r ]

unfoldable pub trim_end_matches : Text → Text → Text
unfolding trim_rounds
trim_end_matches suf s = trim_rounds (length s) suf s

-- The rounds that `trim_end_matches` makes are enough: what is left does not end in the suffix.
trim_rounds_done :
    (n : ℕ) (c : ℕ) (suf s : Text)
    → length s ≤ n
    → strip_suffix (c ∷ suf) (trim_rounds n (c ∷ suf) s) ≡ none
unfolding trim_rounds
trim_rounds_done zero c suf [] h = refl
trim_rounds_done zero c suf (d ∷ s) h = absurd (omega arith)
trim_rounds_done (suc n) c suf s h = elim (Option-cases (strip_suffix (c ∷ suf) s)) [
  | inl e ↦ rw (e, trim_rounds) e
  | inr (r, e) ↦
      let shorter : length r ≤ n =
        omega (arith, ap length (strip_suffix_sound (c ∷ suf) s r e), length-append r (c ∷ suf)) in
      rw (e, trim_rounds) (trim_rounds_done n c suf r shorter)
]

pub trim_end_matches_done :
    (c : ℕ) (suf s : Text) → strip_suffix (c ∷ suf) (trim_end_matches (c ∷ suf) s) ≡ none
unfolding trim_end_matches
trim_end_matches_done c suf s = trim_rounds_done (length s) c suf s (omega arith)

-- `str::replace`; the number is how many bytes of the last match are still to be skipped.
unfoldable pub replace_from : ℕ → Text → Text → Text → Text
replace_from k old new [] = []
replace_from (suc k) old new (c ∷ s) = replace_from k old new s
replace_from zero old new (c ∷ s) =
    let hit = starts_with old (c ∷ s) in
    let rest = replace_from (if hit then length old - 1 else 0) old new s in
    if hit then new ++ rest else c ∷ rest

unfoldable pub replace : Text → Text → Text → Text
unfolding replace_from
replace old new s = replace_from 0 old new s

unfoldable pub push_head : ℕ → List Text → List Text
push_head c [] = (c ∷ []) ∷ []
push_head c (s ∷ parts) = (c ∷ s) ∷ parts

-- `str::split` at a byte.
unfoldable pub split_on : ℕ → Text → List Text
unfolding push_head
split_on sep [] = [] ∷ []
split_on sep (c ∷ s) =
    let parts = split_on sep s in if c == sep then [] ∷ parts else push_head c parts

-- `to_ascii_lowercase`.
abbrev pub lower_byte : ℕ → ℕ
lower_byte c = if leb 65 c && leb c 90 then c + 32 else c

abbrev pub to_ascii_lowercase : Text → Text
to_ascii_lowercase = map lower_byte

abbrev pub eq_ignore_ascii_case : Text → Text → Bool
eq_ignore_ascii_case s t = text_eq (to_ascii_lowercase s) (to_ascii_lowercase t)

replace_test :
    replace (codes "://*.") (codes "://__wildcard__.") (codes "http://*.a/*")
    ≡ codes "http://__wildcard__.a/*"
unfolding replace
replace_test = refl

trim_test : trim_end_matches (codes "/*") (codes "https://h/v1/*/*") ≡ codes "https://h/v1"
unfolding trim_end_matches
trim_test = refl

split_test : split_on b'/' (codes "a//b") ≡ codes "a" ∷ [] ∷ codes "b" ∷ []
unfolding split_on
split_test = refl
