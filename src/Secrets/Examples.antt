-- ===== src/Secrets/Examples.antt =====
-- Declarations that grant, and declarations that grant nothing.
use greentic_designer_extens.Base.{◌≡◌, refl, ◌⊎◌, [], ◌∷◌, ◌++◌, codes, split_on, trim_end_matches}
use greentic_designer_extens.Base.Outcome.{ok, err}
use greentic_designer_extens.Secrets.Defs.{
  SecretsBackend, GetError, malformed, permission_denied, answer, uri_is_plain, after_scheme,
  declaration_is_specific, covers, permitted, get_secret, call_extension,
}
use greentic_designer_extens.Secrets.Access.{Granted, get_secret_lem}

abbrev echo : SecretsBackend
echo uri = ok (codes "value:" ++ uri)

reading : Unit {0}
unfolding get_secret permitted covers declaration_is_specific after_scheme uri_is_plain split_on
    trim_end_matches call_extension
reading = tt

get_secret_tests :
    (get_secret echo (codes "secrets://team/acme" ∷ []) (codes "secrets://team/acme/key")
      ≡ (ok (codes "value:secrets://team/acme/key"), codes "secrets://team/acme/key" ∷ []))
    × (get_secret echo (codes "secrets:" ∷ codes "/" ∷ []) (codes "secrets://team/key")
        ≡ (err (permission_denied (codes "secrets://team/key")), []))
    × (get_secret echo (codes "team" ∷ []) (codes "team/../ops")
        ≡ (err (malformed (codes "team/../ops")), []))
    × (get_secret echo (codes "team" ∷ []) (codes "team-evil/key")
        ≡ (err (permission_denied (codes "team-evil/key")), []))
unfolding reading
get_secret_tests = (refl, refl, refl, refl)

get_secret_lem_example :
    (Granted (codes "team" ∷ []) (codes "team/key")
      × (get_secret echo (codes "team" ∷ []) (codes "team/key")
          ≡ (answer (echo (codes "team/key")), codes "team/key" ∷ [])))
    ⊎ ((Granted (codes "team" ∷ []) (codes "team/key") → ⊥)
        × ((e : GetError) × (get_secret echo (codes "team" ∷ []) (codes "team/key") ≡ (err e, []))))
get_secret_lem_example = get_secret_lem echo (codes "team" ∷ []) (codes "team/key")
