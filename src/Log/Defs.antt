-- ===== src/Log/Defs.antt =====
-- host_state_ports.rs, `clamp`, `log` and `log_kv`. A line is what is handed to the log of the host.
use greentic_designer_extens.Base.{
  ℕ, zero, suc, ◌-◌, ◌*◌, min, Bool, true, ◌||◌, List, [], ◌∷◌, ◌++◌, map, Text, codes, leb, ltb,
  length, if◌then◌else◌,
}

abbrev pub max_log_bytes : ℕ
max_log_bytes = 8 * 1024

abbrev pub max_log_fields : ℕ
max_log_fields = 64

pub data Level : Type 0 where
  trace debug info warn error : Level

pub record Line : Type 0 where
  pub level : Level
  pub target : Text
  pub message : Text

-- `&s[..end]` and `&fields[..shown]`, for a number that is no more than the length.
abbrev pub take {ℓ} : {A : Type ℓ} → ℕ → List A → List A
take zero xs = []
take (suc n) [] = []
take (suc n) (x ∷ xs) = x ∷ take n xs

abbrev pub drop : ℕ → Text → Text
drop zero s = s
drop (suc n) [] = []
drop (suc n) (x ∷ s) = drop n s

-- The byte does not continue a character of UTF-8.
abbrev pub starts_char : Text → Bool
starts_char [] = true
starts_char (x ∷ s) = ltb x 128 || leb 192 x

-- `is_char_boundary`, for a number that is no more than the length.
abbrev pub is_char_boundary : Text → ℕ → Bool
is_char_boundary s zero = true
is_char_boundary s (suc n) = starts_char (drop (suc n) s)

-- "…[truncated]"
abbrev pub marker : Text
marker = 226 ∷ 128 ∷ 166 ∷ codes "[truncated]"

-- The loop that steps `end` back to a boundary.
unfoldable pub step_back : Text → ℕ → ℕ
step_back s zero = zero
step_back s (suc end) =
    let before = step_back s end in if is_char_boundary s (suc end) then suc end else before

unfoldable pub clamp : Text → ℕ → Text
unfolding step_back
clamp s max = if leb (length s) max then s else take (step_back s max) s ++ marker

unfoldable pub log : Level → Text → Text → Line
unfolding clamp
log level target message = record {
  level = level;
  target = clamp target max_log_bytes;
  message = clamp message max_log_bytes;
}

-- `join(", ")`.
abbrev pub join_pairs : List Text → Text
join_pairs [] = []
join_pairs (p ∷ []) = p
join_pairs (p ∷ q ∷ ps) = p ++ (codes ", " ++ join_pairs (q ∷ ps))

-- `to_string` is the decimal rendering of a number; 226 128 166 is "…".
unfoldable pub rendered_fields : (ℕ → Text) → List (Text × Text) → List Text
unfolding clamp
rendered_fields to_string fields =
    let shown = min (length fields) max_log_fields in
    let pairs =
      map (λ f. clamp f.0 max_log_bytes ++ (codes "=" ++ clamp f.1 max_log_bytes))
        (take shown fields) in
    let more =
      226 ∷ 128 ∷ 166 ∷ (codes "+" ++ (to_string (length fields - shown) ++ codes " more")) in
    if ltb shown (length fields) then pairs ++ (more ∷ []) else pairs

unfoldable pub with_pairs : Text → List Text → Text
with_pairs message [] = message
with_pairs message (p ∷ ps) = message ++ (codes " {" ++ (join_pairs (p ∷ ps) ++ codes "}"))

unfoldable pub log_kv : (ℕ → Text) → Level → Text → Text → List (Text × Text) → Line
unfolding log rendered_fields with_pairs
log_kv to_string level target message fields =
    log level target (with_pairs message (rendered_fields to_string fields))
