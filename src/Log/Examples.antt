-- ===== src/Log/Examples.antt =====
-- A text cut inside a character, and a line with fields.
use greentic_designer_extens.Base.{◌+◌, ◌≤◌, ◌≡◌, refl, [], ◌∷◌, ◌++◌, Text, codes, length}
use greentic_designer_extens.Log.Defs.{
  info, max_log_bytes, marker, step_back, clamp, log, log_kv, rendered_fields, with_pairs,
}
use greentic_designer_extens.Log.Clamp.{Clamped, clamp-Clamped, log_kv_bounded}

-- "aé": the second character has two bytes.
abbrev accented : Text
accented = 97 ∷ 195 ∷ 169 ∷ []

clamp_tests :
    (clamp accented 2 ≡ codes "a" ++ marker)
    × (clamp accented 3 ≡ accented)
    × ((log_kv (λ n. []) info (codes "t") (codes "m") ((codes "k", codes "v") ∷ [])).message
        ≡ codes "m {k=v}")
unfolding clamp step_back log log_kv rendered_fields with_pairs
clamp_tests = (refl, refl, refl)

clamp-Clamped_example : Clamped accented 2 (clamp accented 2)
clamp-Clamped_example = clamp-Clamped accented 2

log_kv_bounded_example :
    (length (log_kv (λ n. []) info (codes "t") (codes "m") ((codes "k", codes "v") ∷ [])).target
      ≤ max_log_bytes + 14)
    × (length (log_kv (λ n. []) info (codes "t") (codes "m") ((codes "k", codes "v") ∷ [])).message
        ≤ max_log_bytes + 14)
log_kv_bounded_example =
    log_kv_bounded (λ n. []) info (codes "t") (codes "m") ((codes "k", codes "v") ∷ [])
