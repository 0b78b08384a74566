-- ===== src/Mongo/Recovery/Throttle.antt =====
-- How often the pooled client may be rebuilt.
use mongo_ha.Base.{
  ltb, if◌then◌else◌, Bool-cases, All, length, Instant, ◌+◌, ◌≤◌, ◌<◌, ◌≡◌, refl, ◌≢◌, inl, inr,
  Bool, true, false, Option, none, some, List, [], ◌∷◌, arith,
}
use mongo_ha.Mongo.Recovery.{
  Failure, auth, transport, verdict, rebuild_backoff_min, rebuild_backoff_max,
  transport_failures_before_rebuild, RecoveryPolicy, proven, on_success, arm, on_failure,
}

-- The wait between rebuilds stays between 30 and 300 seconds, and a pending window is never longer.
pub record IsBounded (p : RecoveryPolicy) : Type 0 where
  pub at_least : rebuild_backoff_min ≤ p.backoff
  pub at_most : p.backoff ≤ rebuild_backoff_max

-- One outcome of a command, as the policy is told of it.
pub data Outcome : Type 0 where
  succeeded : Bool → Outcome
  failed : Failure → Bool → Instant → Outcome

pub note : Outcome → RecoveryPolicy → RecoveryPolicy
note (succeeded a) p = on_success a p
note (failed f a now) p = (on_failure f a now p).0

pub run : List Outcome → RecoveryPolicy → RecoveryPolicy
run [] p = p
run (o ∷ os) p = run os (note o p)

proven-IsBounded : (a : Bool) (p : RecoveryPolicy) → IsBounded p → IsBounded (proven a p)
unfolding proven
proven-IsBounded a p v = ground arith

arm-IsBounded :
    (f : Failure) (now : Instant) (p : RecoveryPolicy) (o : Option (Failure × Instant))
    → IsBounded p
    → IsBounded (arm f now p o).0
unfolding arm
arm-IsBounded f now p none v = record { at_least = omega arith; at_most = omega arith }
arm-IsBounded f now p (some (kind, until)) v = ground arith

if-IsBounded :
    (b : Bool) (x y : RecoveryPolicy × Bool)
    → IsBounded x.0
    → IsBounded y.0
    → IsBounded (if b then x else y).0
if-IsBounded true x y h k = h
if-IsBounded false x y h k = k

note-IsBounded : (o : Outcome) (p : RecoveryPolicy) → IsBounded p → IsBounded (note o p)
unfolding note on_success
note-IsBounded (succeeded a) p v = proven-IsBounded a p v
note-IsBounded (failed verdict a now) p v = unfold on_failure in proven-IsBounded a p v
note-IsBounded (failed auth a now) p v = unfold on_failure in arm-IsBounded auth now p p.pending v
note-IsBounded (failed transport a now) p v =
    let counted = record p { transport_failures = p.transport_failures + 1 } in
    unfold on_failure in
    if-IsBounded (ltb (p.transport_failures + 1) transport_failures_before_rebuild) (counted, false)
      (arm transport now counted p.pending) (record { at_least = v.at_least; at_most = v.at_most })
      (arm-IsBounded transport now counted p.pending
        (record { at_least = v.at_least; at_most = v.at_most }))

-- From a policy whose wait between rebuilds is between 30 and 300 seconds, every sequence of outcomes
-- leads to one whose wait is so too.
pub run-IsBounded : (os : List Outcome) (p : RecoveryPolicy) → IsBounded p → IsBounded (run os p)
unfolding run
run-IsBounded [] p v = v
run-IsBounded (o ∷ os) p v = run-IsBounded os (note o p) (note-IsBounded o p v)

armed :
    (f : Failure) (now : Instant) (p : RecoveryPolicy) (o : Option (Failure × Instant))
    → (arm f now p o).1 ≡ true
    → (arm f now p o).0.pending ≡ some (f, now + (arm f now p o).0.backoff)
unfolding arm
armed f now p none r = refl
armed f now p (some (kind, until)) r = ground arith

-- A rebuild opens a window for its own kind of failure.
rebuilt-pending :
    (f : Failure) (a : Bool) (now : Instant) (p : RecoveryPolicy)
    → (on_failure f a now p).1 ≡ true
    → (on_failure f a now p).0.pending ≡ some (f, now + (on_failure f a now p).0.backoff)
unfolding on_failure
rebuilt-pending auth a now p r = armed auth now p p.pending r
rebuilt-pending verdict a now p r = cc
rebuilt-pending transport a now p r =
    let counted = record p { transport_failures = p.transport_failures + 1 } in
    elim (Bool-cases (ltb (p.transport_failures + 1) transport_failures_before_rebuild)) [
      | inl t ↦ absurd (ground arith)
      | inr t ↦ rw t (armed transport now counted p.pending (ground (arith, r, t)))
    ]

arm_held :
    (f : Failure) (now until : Instant) (p : RecoveryPolicy)
    → now < until
    → arm f now p (some (f, until)) ≡ (p, false)
unfolding arm
arm_held auth now until p h = ground arith
arm_held transport now until p h = ground arith
arm_held verdict now until p h = ground arith

-- Inside the window a failure of that kind rebuilds nothing and leaves the window as it is.
held :
    (f : Failure) (a : Bool) (now until : Instant) (p : RecoveryPolicy)
    → f ≢ verdict
    → p.pending ≡ some (f, until)
    → now < until
    → ((on_failure f a now p).0.pending ≡ some (f, until)) × ((on_failure f a now p).1 ≡ false)
unfolding on_failure
held auth a now until p n e h = ground (arith, e, arm_held auth now until p h)
held verdict a now until p n e h = absurd (n refl)
held transport a now until p n e h =
    let counted = record p { transport_failures = p.transport_failures + 1 } in
    ground (arith, e, arm_held transport now until counted h)

-- Failures of one kind, in a row.
abbrev pub failures : Failure → List (Bool × Instant) → List Outcome
failures f [] = []
failures f ((a, t) ∷ es) = failed f a t ∷ failures f es

held-run :
    (f : Failure) (es : List (Bool × Instant)) (until : Instant) (p : RecoveryPolicy)
    → f ≢ verdict
    → p.pending ≡ some (f, until)
    → All (λ (e : Bool × Instant). e.1 < until) es
    → (run (failures f es) p).pending ≡ some (f, until)
unfolding run note
held-run f [] until p n e h = e
held-run f ((a, t) ∷ es) until p n e (h, hs) =
    held-run f es until (on_failure f a t p).0 n (held f a t until p n e h).0 hs

rebuild-not-verdict :
    (f : Failure) (a : Bool) (now : Instant) (p : RecoveryPolicy)
    → (on_failure f a now p).1 ≡ true
    → f ≢ verdict
unfolding on_failure
rebuild-not-verdict f a now p r e = ground arith

-- After a rebuild at `now`, a run of failures of the same kind causes no further rebuild until the
-- policy's backoff has passed since `now`.
pub throttled :
    (f : Failure) (a : Bool) (now : Instant) (p : RecoveryPolicy) (es : List (Bool × Instant))
    (b : Bool) (t : Instant)
    → (on_failure f a now p).1 ≡ true
    → All (λ (e : Bool × Instant). e.1 < now + (on_failure f a now p).0.backoff) es
    → t < now + (on_failure f a now p).0.backoff
    → (on_failure f b t (run (failures f es) (on_failure f a now p).0)).1 ≡ false
throttled f a now p es b t r hs h =
    let n = rebuild-not-verdict f a now p r in
    (held f b t (now + (on_failure f a now p).0.backoff)
      (run (failures f es) (on_failure f a now p).0) n
      (held-run f es (now + (on_failure f a now p).0.backoff) (on_failure f a now p).0 n
        (rebuilt-pending f a now p r) hs)
      h).1

-- The first authentication failure after an authenticated command succeeded rebuilds at once.
pub auth_rebuilds_at_once :
    (a : Bool) (now : Instant) (p : RecoveryPolicy)
    → (on_failure auth a now (on_success true p)).1 ≡ true
unfolding on_failure on_success
auth_rebuilds_at_once a now p = ground arith

counted_step :
    (a : Bool) (t : Instant) (p : RecoveryPolicy)
    → (on_failure transport a t p).0.transport_failures ≤ p.transport_failures + 1
unfolding on_failure
counted_step a t p = ground arith

counted-run :
    (es : List (Bool × Instant)) (p : RecoveryPolicy)
    → (run (failures transport es) p).transport_failures ≤ p.transport_failures + length es
unfolding run note
counted-run [] p = omega arith
counted-run ((a, t) ∷ es) p =
    omega (arith, counted-run es (on_failure transport a t p).0, counted_step a t p)

-- The first four transport failures after any success rebuild nothing, whenever they happen.
pub transport_patience :
    (authenticated : Bool) (p : RecoveryPolicy) (es : List (Bool × Instant)) (b : Bool)
    (t : Instant)
    → length es < 4
    → (on_failure transport b t (run (failures transport es) (on_success authenticated p))).1
      ≡ false
transport_patience authenticated p es b t h =
    let c = counted-run es (on_success authenticated p) in few c
  where
    zeroed : (on_success authenticated p).transport_failures ≡ 0
    zeroed = unfold on_success in refl

    few :
        (run (failures transport es) (on_success authenticated p)).transport_failures
          ≤ (on_success authenticated p).transport_failures + length es
        → (on_failure transport b t (run (failures transport es) (on_success authenticated p))).1
          ≡ false
    few c = unfold on_failure in ground (arith, zeroed, c, h)
