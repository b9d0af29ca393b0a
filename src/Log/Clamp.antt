-- ===== src/Log/Clamp.antt =====
-- What a clamped text keeps.
use greentic_designer_extens.Base.{
  ℕ, zero, suc, ◌+◌, ◌≤◌, ◌<◌, ◌≡◌, ◌≢◌, refl, sym, ap, inl, inr, true, List, [], ◌∷◌, ◌++◌, Text,
  length, length-append, arith, Bool-cases, leb,
}
use greentic_designer_extens.Log.Defs.{
  Level, max_log_bytes, take, drop, is_char_boundary, marker, step_back, clamp, log, log_kv,
  with_pairs, rendered_fields,
}

take-drop : (n : ℕ) (s : Text) → take n s ++ drop n s ≡ s
take-drop zero s = refl
take-drop (suc n) [] = refl
take-drop (suc n) (x ∷ s) = ap (λ t. x ∷ t) (take-drop n s)

length-take : (n : ℕ) (s : Text) → n ≤ length s → length (take n s) ≡ n
length-take zero s h = refl
length-take (suc n) [] h = absurd (omega arith)
length-take (suc n) (x ∷ s) h = ap suc (length-take n s (omega arith))

step_back-le : (s : Text) (n : ℕ) → step_back s n ≤ n
unfolding step_back
step_back-le s zero = omega arith
step_back-le s (suc n) = ground (arith, step_back-le s n)

step_back_boundary : (s : Text) (n : ℕ) → is_char_boundary s (step_back s n) ≡ true
unfolding step_back
step_back_boundary s zero = refl
step_back_boundary s (suc n) = elim (Bool-cases (is_char_boundary s (suc n))) [
  | inl here ↦ rw (here, step_back) here
  | inr no_boundary ↦ rw (no_boundary, step_back) (step_back_boundary s n)
]

step_back_last : (s : Text) (n i : ℕ) → i ≤ n → is_char_boundary s i ≡ true → i ≤ step_back s n
unfolding step_back
step_back_last s zero i h b = h
step_back_last s (suc n) i h b = elim (Bool-cases (is_char_boundary s (suc n))) [
  | inl here ↦ rw (here, step_back) h
  | inr no_boundary ↦
      let ne : i ≢ suc n = λ e. cc (rw e at b, no_boundary) in
      rw (no_boundary, step_back) (step_back_last s n i (omega (arith, ne)) b)
]

-- The text is kept as it is, or cut at the last boundary of a character within the bound and marked.
pub data Clamped (s : Text) (max : ℕ) : Text → Type 0 where
  whole : length s ≤ max → Clamped s max s
  cut :
      (kept rest : Text)
      → max < length s
      → s ≡ kept ++ rest
      → length kept ≤ max
      → is_char_boundary s (length kept) ≡ true
      → ((i : ℕ) → i ≤ max → is_char_boundary s i ≡ true → i ≤ length kept)
      → Clamped s max (kept ++ marker)

-- A clamped text is the whole text where that is within the bound, and else its longest part within
-- the bound that ends where a character does, with the mark of a cut.
pub clamp-Clamped : (s : Text) (max : ℕ) → Clamped s max (clamp s max)
unfolding clamp
clamp-Clamped s max = elim (Bool-cases (leb (length s) max)) [
  | inl fits ↦ rw fits (whole (ground arith))
  | inr long ↦
      let longer : max < length s = ground arith in
      let size : length (take (step_back s max) s) ≡ step_back s max =
        length-take (step_back s max) s (omega (arith, step_back-le s max)) in
      rw long (
        cut (take (step_back s max) s) (drop (step_back s max) s) longer
          (sym (take-drop (step_back s max) s)) (omega (arith, size, step_back-le s max))
          (rw size (step_back_boundary s max)) (λ i h b. rw size (step_back_last s max i h b)))
]

Clamped-length : (s : Text) (max : ℕ) (t : Text) → Clamped s max t → length t ≤ max + 14
Clamped-length s max _ (whole h) = omega arith
Clamped-length s max _ (cut kept rest long same size boundary last) =
    omega (arith, length-append kept marker)

-- Whatever the guest hands over, and however many fields, the target and the message of the line that
-- is logged have at most 8192 bytes and the 14 of the mark.
pub log_kv_bounded :
    (to_string : ℕ → Text) (level : Level) (target message : Text) (fields : List (Text × Text))
    → (length (log_kv to_string level target message fields).target ≤ max_log_bytes + 14)
      × (length (log_kv to_string level target message fields).message ≤ max_log_bytes + 14)
unfolding log_kv log
log_kv_bounded to_string level target message fields =
    let text = with_pairs message (rendered_fields to_string fields) in
    (
      Clamped-length target max_log_bytes (clamp target max_log_bytes)
          (clamp-Clamped target max_log_bytes),
      Clamped-length text max_log_bytes (clamp text max_log_bytes)
          (clamp-Clamped text max_log_bytes),
    )
