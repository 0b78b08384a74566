-- ===== src/HealthServer/Failures.antt =====
-- The rate limit of the log of `/role` failures.
use mongo_ha.Base.{
  ltb, if◌then◌else◌, All, Instant, ◌-◌, ◌<◌, ◌≡◌, refl, none, some, List, [], ◌∷◌, arith,
}
use mongo_ha.HealthServer.{role_failure_log_every, FailureLog, new_log, on_failure}

pub fail_run : List Instant → FailureLog → FailureLog
fail_run [] l = l
fail_run (t ∷ ts) l = fail_run ts (on_failure t l).0

kept-fail_run :
    (ts : List Instant) (l : FailureLog) (t since : Instant)
    → All (λ u. u - t < role_failure_log_every) ts
    → l.failing_since ≡ some since
    → l.last_logged ≡ some t
    → ((fail_run ts l).failing_since ≡ some since) × ((fail_run ts l).last_logged ≡ some t)
unfolding fail_run on_failure
kept-fail_run [] l t since h e f = (e, f)
kept-fail_run (u ∷ us) l t since (h, hs) e f =
    kept-fail_run us (on_failure u l).0 t since hs (ground (arith, e, f, h))
      (ground (arith, e, f, h))

-- The first failure, at `t`, is logged at once. After any failures within a minute of `t`, a failure at
-- `u` is logged exactly when a minute has passed since `t`, with the time since the first failure.
pub failure_log :
    (t u : Instant) (ts : List Instant)
    → All (λ v. v - t < role_failure_log_every) ts
    → ((on_failure t new_log).1 ≡ some (t - t))
      × ((on_failure u (fail_run ts (on_failure t new_log).0)).1
          ≡ (if ltb (u - t) role_failure_log_every then none else some (u - t)))
unfolding on_failure
failure_log t u ts h =
    let k = kept-fail_run ts (on_failure t new_log).0 t t h refl refl in (refl, ground (arith, k))
