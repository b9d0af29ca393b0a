-- ===== src/Types/Examples.antt =====
-- An error of each version.
use greentic_designer_extens.Base.{◌≡◌, none, [], ◌∷◌, codes}
use greentic_designer_extens.Types.Wit
use greentic_designer_extens.Types.Wit.{ErrorV1, ErrorV2}
use greentic_designer_extens.Types.Maps.{
  from_composer_v01, wit_role_error_to_host, wit_role_error_to_host_v03,
}
use greentic_designer_extens.Types.Names.{variant_v1, variant_v2, wire, role_of_wit, role_of_host}
use greentic_designer_extens.Types.Wire.{KeptV1, KeptV2, wire_lem}

abbrev denied : ErrorV1
denied = ErrorV1.permission_denied (codes "no")

abbrev gone : ErrorV2
gone = ErrorV2.not_found (codes "x")

abbrev marked : Wit.RoleError ErrorV1
marked = Wit.RoleError.invalid_input (
    record { severity = Wit.Severity.warning; code = codes "c"; message = codes "m"; path = none }
    ∷ [])

abbrev failed : Wit.RoleError ErrorV2
failed = Wit.RoleError.host gone

wire_lem_example :
    KeptV1 denied
    × KeptV2 gone
    × (wire (from_composer_v01 (codes "t")) ≡ (codes "internal", codes "t"))
    × (role_of_host (wit_role_error_to_host marked) ≡ role_of_wit variant_v1 marked)
    × (role_of_host (wit_role_error_to_host_v03 failed) ≡ role_of_wit variant_v2 failed)
wire_lem_example = wire_lem denied gone (codes "t") marked failed
