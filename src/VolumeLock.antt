-- ===== src/VolumeLock.antt =====
-- mongo-wrapper/src/volume_lock.rs: the wait for the volume's lock.
pub mod Wait
mod Tests
use mongo_ha.Base.{
  ltb, leb, ◌==◌, if◌then◌else◌, ltb→lt, lt→ltb, leb→le, le→leb, leb→gt, ltb→ge, ==_iff, tests,
  Bool-cases, Option-cases, and_true, or_false, is_some, is_some_and, or_else, unwrap_or,
  Option_filter, and_then, Option_map, if_elim, All, Any, In, length, any, all, find, filter, count,
  position, length-append, count-le-length, find-eq-some, find-eq-none, any-eq-false, any-eq-true,
  all-eq-true, find_map, filter_map, All-append, All-In, Any-In, In-filter, In-map, List-cases,
  filter_map-append, filter_map-filter, filter-append, All-of_In, filter_map-In, In-filter_map,
  In-append_left, In-append_right, In-append, In-guard, guard-In, append_nil, append_assoc,
  Duration, Instant, nanos_per_sec, from_secs, from_millis, as_secs, duration_since, bit_xor-zero,
  bit_xor_refl, bit_or-zero, ℕ, zero, suc, ◌+◌, ◌-◌, ◌*◌, ◌/◌, ◌%◌, ◌^◌, bit_or, bit_xor, ◌≤◌, ◌<◌,
  min, max, String, ◌≡◌, refl, sym, ap, ◌∙◌, ◌≢◌, ◌↔◌, ◌⊎◌, inl, inr, Bool, true, false, not, ◌&&◌,
  ◌||◌, Option, none, some, List, [], ◌∷◌, ◌++◌, map, arith,
}
use mongo_ha.Text.{Text, codes, is_empty, text_eq, text_eq_refl, text_eq_iff, text_eq-ne}
use mongo_ha.Text.Number.{
  is_digit, digits_from, digits, unsigned_digits, parse_unsigned, decimal_within, decimal,
}

pub data VolumeLockOutcome : Type 0 where
  held failed_open : VolumeLockOutcome

abbrev pub default_wait_secs : ℕ
default_wait_secs = 300

-- `RUNTIME_LOCK_WAIT_SECONDS`
unfoldable pub lock_wait_secs : Option Text → ℕ
lock_wait_secs value = unwrap_or (and_then value (λ v. parse_unsigned (2 ^ 64) v)) default_wait_secs

-- One attempt: whether the lock was free, and the time since the start.
abbrev pub Attempt : Type 0
Attempt = Bool × Duration

-- `bail!` at the deadline, and the panic of `Instant::now() + Duration` where the clock cannot
-- represent the sum.
pub data LockFailure : Type 0 where
  too_late panicked : LockFailure

-- The outcome, or how the boot fails.
abbrev pub LockResult : Type 0
LockResult = VolumeLockOutcome ⊎ LockFailure

-- `none` when the attempts end before the loop does.
unfoldable pub lock_loop : ℕ → List Attempt → Option LockResult
lock_loop wait_secs [] = none
lock_loop wait_secs ((free, elapsed) ∷ rest) =
    let later = lock_loop wait_secs rest in
    if free
    then some (inl held)
    else (if leb (from_secs wait_secs) elapsed then some (inr too_late) else later)

-- Whether the clock can represent the time after a wait from now, whether the file opens, then the
-- attempts.
unfoldable pub acquire_with_wait : (Duration → Bool) → Bool → ℕ → List Attempt → Option LockResult
unfolding lock_loop
acquire_with_wait is_representable opens wait_secs attempts =
    if opens
    then (if is_representable (from_secs wait_secs)
        then lock_loop wait_secs attempts
        else some (inr panicked))
    else some (inl failed_open)

unfoldable pub acquire_volume_runtime_lock :
    (Duration → Bool) → Option Text → Bool → List Attempt → Option LockResult
unfolding acquire_with_wait lock_wait_secs
acquire_volume_runtime_lock is_representable value opens attempts =
    acquire_with_wait is_representable opens (lock_wait_secs value) attempts
