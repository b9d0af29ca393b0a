-- ===== src/Base/Blank.antt =====
-- `str::trim().is_empty()`: whether a UTF-8 text has white space (Unicode `White_Space`) alone.
use Prim.Native.Nat.{ℕ, zero, suc}
use mathlib.Core.Path.{◌≡◌, refl}
use mathlib.Core.Bool.{Bool, true, false, ◌&&◌, ◌||◌}
use mathlib.Core.List.{[], ◌∷◌}
use greentic_designer_extens.Base.Tests.{◌==◌, leb, if◌then◌else◌}
use greentic_designer_extens.Base.Bytes.{Text}

-- U+0009 to U+000D and U+0020.
white_byte : ℕ → Bool
white_byte a = leb 9 a && leb a 13 || a == 32

-- U+0085 and U+00A0.
white_pair : ℕ → ℕ → Bool
white_pair a b = a == 194 && (b == 133 || b == 160)

-- U+1680, U+2000 to U+200A, U+2028, U+2029, U+202F, U+205F and U+3000.
white_triple : ℕ → ℕ → ℕ → Bool
white_triple a b c =
    a == 225 && b == 154 && c == 128
    || (a == 226 && b == 128 && (leb 128 c && leb c 138 || (c == 168 || (c == 169 || c == 175)))
        || (a == 226 && b == 129 && c == 159 || a == 227 && b == 128 && c == 128))

-- The bytes of the white space that a text starts with; 0 when it does not start with any.
white_width : Text → ℕ
unfolding white_byte white_pair white_triple
white_width [] = 0
white_width (a ∷ []) = if white_byte a then 1 else 0
white_width (a ∷ b ∷ []) = if white_byte a then 1 else if white_pair a b then 2 else 0
white_width (a ∷ b ∷ c ∷ s) =
    if white_byte a then 1 else if white_pair a b then 2 else if white_triple a b c then 3 else 0

-- The number is how many bytes of the last white space are still to be skipped.
blank_from : ℕ → Text → Bool
unfolding white_width
blank_from k [] = true
blank_from (suc k) (a ∷ s) = blank_from k s
blank_from zero (a ∷ s) = elim (white_width (a ∷ s)) [ zero ↦ false | suc k ↦ blank_from k s ]

unfoldable pub is_blank : Text → Bool
unfolding blank_from
is_blank s = blank_from 0 s

blank_test : is_blank (9 ∷ 194 ∷ 160 ∷ 226 ∷ 128 ∷ 175 ∷ 32 ∷ []) ≡ true
unfolding is_blank
blank_test = refl

letter_test : is_blank (32 ∷ 97 ∷ 32 ∷ []) ≡ false
unfolding is_blank
letter_test = refl
