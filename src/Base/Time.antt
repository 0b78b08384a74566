-- ===== src/Base/Time.antt =====
-- `std::time`: a `Duration` and an `Instant` count nanoseconds. `Instant::duration_since`
-- saturates at zero, as `◌-◌` does.
use Prim.Native.Nat.{ℕ, ◌*◌, ◌/◌, ◌-◌}

abbrev pub Duration : Type 0
Duration = ℕ

abbrev pub Instant : Type 0
Instant = ℕ

abbrev pub nanos_per_sec : ℕ
nanos_per_sec = 1_000_000_000

abbrev pub from_secs : ℕ → Duration
from_secs n = n * nanos_per_sec

abbrev pub from_millis : ℕ → Duration
from_millis n = n * 1_000_000

abbrev pub as_secs : Duration → ℕ
as_secs d = d / nanos_per_sec

abbrev pub duration_since : Instant → Instant → Duration
duration_since now earlier = now - earlier
