-- ===== src/VolumeLock/Wait.antt =====
-- When the lock is held, and that the wait ends.
use mongo_ha.Base.{
  leb, Bool-cases, Any, Duration, from_secs, ℕ, ◌≤◌, ◌<◌, ◌≡◌, refl, ◌⊎◌, inl, inr, Bool, true,
  false, Option, some, List, [], ◌∷◌, arith,
}
use mongo_ha.Text.{Text}
use mongo_ha.VolumeLock.{
  held, failed_open, lock_wait_secs, Attempt, LockResult, lock_loop, acquire_volume_runtime_lock,
  too_late, panicked,
}

-- An attempt finds the lock free, and those before it came before the deadline.
abbrev pub GetsLock : Duration → List Attempt → Type 0
GetsLock wait [] = ⊥
GetsLock wait ((free, elapsed) ∷ rest) =
    (free ≡ true) ⊎ ((free ≡ false) × (elapsed < wait) × GetsLock wait rest)

lock_loop_ends :
    (wait : ℕ) (xs : List Attempt)
    → Any (λ x. from_secs wait ≤ x.1) xs
    → (r : LockResult) × (lock_loop wait xs ≡ some r)
unfolding lock_loop
lock_loop_ends wait [] h = absurd h
lock_loop_ends wait ((true, d) ∷ xs) h = (inl held, refl)
lock_loop_ends wait ((false, d) ∷ xs) h = elim (Bool-cases (leb (from_secs wait) d)) [
  | inl e ↦ (inr too_late, rw e refl)
  | inr e ↦ elim h [
    | inl l ↦ absurd (ground (arith, e, l))
    | inr r ↦ let (x, q) = lock_loop_ends wait xs r in (x, rw e q)
  ]
]

-- The wait ends: once an attempt is at or past the deadline, there is a result.
pub acquire_ends :
    (is_representable : Duration → Bool) (value : Option Text) (opens : Bool)
    (attempts : List Attempt)
    → Any (λ x. from_secs (lock_wait_secs value) ≤ x.1) attempts
    → (r : LockResult) × (acquire_volume_runtime_lock is_representable value opens attempts
        ≡ some r)
unfolding acquire_volume_runtime_lock
acquire_ends is_representable value false attempts h = (inl failed_open, refl)
acquire_ends is_representable value true attempts h =
    elim (Bool-cases (is_representable (from_secs (lock_wait_secs value)))) [
      | inl r ↦ rw r (lock_loop_ends (lock_wait_secs value) attempts h)
      | inr r ↦ (inr panicked, rw r refl)
    ]
