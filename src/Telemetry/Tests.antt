-- ===== src/Telemetry/Tests.antt =====
-- A body of two-byte characters, cut inside one.
use mongo_ha.Base.{All, length, ℕ, zero, suc, ◌<◌, ◌≡◌, refl, true, some, [], ◌∷◌, ◌++◌, arith}
use mongo_ha.Text.{Text}
use mongo_ha.Text.Utf8.{is_scalar, as_bytes, from_utf8}
use mongo_ha.Telemetry.{truncate}
use mongo_ha.Telemetry.Cut.{IsCut, truncate-IsCut}

abbrev repeated : ℕ → ℕ → Text
repeated c zero = []
repeated c (suc n) = c ∷ repeated c n

-- 1 + 2 * 150 bytes.
abbrev long_body : Text
long_body = b'a' ∷ repeated 0xe9 150

long_body_cut : truncate long_body ≡ some ((b'a' ∷ repeated 0xe9 149) ++ 0x2026 ∷ [])
unfolding truncate as_bytes from_utf8
long_body_cut = refl

long_body-length : 300 < length (as_bytes long_body)
unfolding as_bytes
long_body-length = omega arith

repeated-scalar : (c n : ℕ) → is_scalar c ≡ true → All (λ c. is_scalar c ≡ true) (repeated c n)
repeated-scalar c zero h = tt
repeated-scalar c (suc n) h = (h, repeated-scalar c n h)

truncate-IsCut_example :
    (logged : Text) × (truncate long_body ≡ some logged) × IsCut long_body logged
unfolding is_scalar
truncate-IsCut_example =
    truncate-IsCut long_body (refl, repeated-scalar 0xe9 150 refl) long_body-length
