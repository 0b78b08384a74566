-- ===== src/Telemetry/Attempts.antt =====
-- How often an event is posted.
use mongo_ha.Base.{length, ℕ, zero, suc, ◌≤◌, none, some, arith}
use mongo_ha.Telemetry.{Post, answered, send_attempts}

-- There are at most as many posts as attempts.
pub send_attempts-length :
    (attempts : ℕ) (post : ℕ → Post) → length (send_attempts attempts post) ≤ attempts
unfolding send_attempts
send_attempts-length zero post = omega arith
send_attempts-length (suc n) post = go (post n) n (send_attempts-length n post)
  where
    go :
        (p : Post) (m : ℕ)
        → length (send_attempts n post) ≤ n
        → length (answered p m (send_attempts n post)) ≤ suc n
    go (some (status, body)) m h = omega arith
    go none zero h = omega arith
    go none (suc m) h = omega (arith, h)
