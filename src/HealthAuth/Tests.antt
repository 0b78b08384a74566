-- ===== src/HealthAuth/Tests.antt =====
-- A rotated credential, with a header that carries it.
use mongo_ha.Base.{◌∷◌, ◌++◌, ◌≡◌, refl, ◌↔◌, true, Option, some}
use mongo_ha.Text.{Text, codes}
use mongo_ha.Text.Case
use mongo_ha.Text.Trim
use mongo_ha.Text.Split
use mongo_ha.Text.Utf8.{Bytes, is_scalar, as_bytes, from_utf8}
use mongo_ha.HealthAuth.Carried.{IsLive, CarriesBytes}
use mongo_ha.HealthAuth.{Credential, constant_time_eq, basic_payload, next_run, refused, require}
use mongo_ha.HealthAuth.Basic.{constant_time_eq_iff, NoColon, require-next_run_iff}

-- The identity in place of base64.
abbrev plain : Text → Option Bytes
plain s = some s

abbrev configured : Credential
configured = record { username = codes "railway"; password = codes "old:1" }

basic_any_case : basic_payload (codes "  BASIC  railway:new ") ≡ some (codes "railway:new")
unfolding basic_payload Trim.trim Case.eq_ignore_ascii_case
basic_any_case = refl

authorized_rotated :
    require some plain
      (some configured)
      (some (codes " old:1 "))
      (some (codes "new"))
      (some (codes "Basic railway:new"))
    ≡ next_run
unfolding require basic_payload Trim.trim Case.eq_ignore_ascii_case from_utf8 Split.split_once
    constant_time_eq as_bytes
authorized_rotated = refl

refused_old :
    require some plain
      (some configured)
      (some (codes "old:1"))
      (some (codes "new"))
      (some (codes "Basic railway:old:1"))
    ≡ refused
unfolding require basic_payload Trim.trim Case.eq_ignore_ascii_case from_utf8 Split.split_once
    constant_time_eq as_bytes
refused_old = refl

require-next_run_iff_example :
    (require some plain
        (some configured)
        (some (codes "old:1"))
        (some (codes "new"))
        (some (codes "Basic railway:new"))
      ≡ next_run)
    ↔ (NoColon configured.username
        × (password : Text) × IsLive configured (some (codes "old:1")) (some (codes "new")) password
        × CarriesBytes some plain
            (some (codes "Basic railway:new"))
            (as_bytes (configured.username ++ b':' ∷ password)))
unfolding is_scalar
require-next_run_iff_example =
    require-next_run_iff some plain configured (some (codes "old:1")) (some (codes "new"))
      (some (codes "Basic railway:new")) (refl, (refl, (refl, (refl, (refl, (refl, (refl, tt)))))))
      (refl, (refl, (refl, (refl, (refl, tt))))) (refl, (refl, (refl, tt)))

constant_time_eq_iff_example :
    (constant_time_eq (codes "secret") (codes "secret_") ≡ true)
    ↔ (codes "secret" ≡ codes "secret_")
constant_time_eq_iff_example = constant_time_eq_iff (codes "secret") (codes "secret_")
