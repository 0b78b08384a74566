-- ===== src/VolumeLock/Tests.antt =====
-- A lock that is free at the second attempt.
use mongo_ha.Base.{◌^◌, from_secs, true, false, List, [], ◌∷◌, Duration, Bool, ltb}
use mongo_ha.VolumeLock.{Attempt}

abbrev attempts : List Attempt
attempts = (false, from_secs 0) ∷ (true, from_secs 1) ∷ []

-- A clock of 64 bits of seconds.
abbrev in_range : Duration → Bool
in_range d = ltb d (from_secs (2 ^ 63))
