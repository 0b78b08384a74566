-- ===== src/Recovery/Outcome.antt =====
-- The two ways in which the recovery boot succeeds, and that the wait for its shutdown ends.
use mongo_ha.Base.{
  leb, if◌then◌else◌, Bool-cases, Any, Duration, ◌≤◌, ◌≡◌, refl, sym, ap, ◌∙◌, ◌↔◌, ◌⊎◌, inl, inr,
  Bool, true, false, Option, none, some, List, [], ◌∷◌, arith,
}
use mongo_ha.Recovery.{
  nothing_observed, forward_log, replayed, no_oplog, Code, RecoveryError, spawn_failed, no_stdout,
  wait_failed, no_pid, signal_failed, shutdown_late, ReplayResult, Child, running, wait_error,
  exited, Waited, up, broken, early, wait_up, shutdown_limit, wait_stopped, stopped, stop_cleanly,
  Recovery, after_wait, replay_oplog_as_standalone,
}
use mongo_ha.Recovery.Verdict.{
  forward_log-saw, IsCheckpointed, HasNoOplog, wait_up-ComesUp_iff, wait_up-ExitsEarly_iff,
  stop_cleanly-replayed_iff, stop_cleanly-no_oplog, verdict-no_oplog_iff, verdict-replayed,
}

after_wait-replayed :
    (r : Recovery) (w : Option Waited)
    → after_wait r w ≡ some (inl replayed)
    → (w ≡ some up) × (stop_cleanly r.has_pid r.signalled r.stop_turns ≡ some (inl replayed))
after_wait-replayed r none h = cc
after_wait-replayed r (some broken) h = cc
after_wait-replayed r (some up) h = (refl, h)
after_wait-replayed r (some (early code)) h = absurd (
    verdict-replayed (forward_log nothing_observed r.lines).saw_no_oplog code
      (forward_log nothing_observed r.lines).last_fatal (ground (arith, h)))

after_wait-no_oplog :
    (r : Recovery) (w : Option Waited)
    → after_wait r w ≡ some (inl no_oplog)
    → (code : Code) × (w ≡ some (early code))
      × ((forward_log nothing_observed r.lines).saw_no_oplog ≡ true)
after_wait-no_oplog r none h = cc
after_wait-no_oplog r (some broken) h = cc
after_wait-no_oplog r (some up) h =
    absurd (stop_cleanly-no_oplog r.has_pid r.signalled r.stop_turns h)
after_wait-no_oplog r (some (early code)) h = (
  code,
  refl,
  (verdict-no_oplog_iff (forward_log nothing_observed r.lines).saw_no_oplog code
        (forward_log nothing_observed r.lines).last_fatal).0
      (ground (arith, h)),
)

-- The recovery boot counts as replayed exactly when its server came up, was sent the signal and
-- exited with success before the shutdown limit.
pub replay-IsCheckpointed_iff :
    (r : Recovery) → (replay_oplog_as_standalone r ≡ some (inl replayed)) ↔ IsCheckpointed r
unfolding replay_oplog_as_standalone
replay-IsCheckpointed_iff r = (go r.spawned r.piped refl refl, from)
  where
    go :
        (s p : Bool)
        → r.spawned ≡ s
        → r.piped ≡ p
        → (if s
            then (if p then after_wait r (wait_up r.turns) else some (inr no_stdout))
            else some (inr spawn_failed))
          ≡ some (inl replayed)
        → IsCheckpointed r
    go false p e f h = cc
    go true false e f h = cc
    go true true e f h =
        let (u, stop) = after_wait-replayed r (wait_up r.turns) h in
        let (a, b, c) = (stop_cleanly-replayed_iff r.has_pid r.signalled r.stop_turns).0 stop in
        record {
          spawned = e;
          piped = f;
          comes_up = (wait_up-ComesUp_iff r.turns).0 u;
          has_pid = a;
          signalled = b;
          stops_cleanly = c;
        }

    from : IsCheckpointed r → replay_oplog_as_standalone r ≡ some (inl replayed)
    from w =
        rw (w.spawned, w.piped, (wait_up-ComesUp_iff r.turns).1 w.comes_up)
          ((stop_cleanly-replayed_iff r.has_pid r.signalled r.stop_turns).1
            (w.has_pid, w.signalled, w.stops_cleanly))

-- The recovery boot counts as having nothing to replay exactly when its server exited before it
-- came up and a line of its log has the id 31364.
pub replay-HasNoOplog_iff :
    (r : Recovery) → (replay_oplog_as_standalone r ≡ some (inl no_oplog)) ↔ HasNoOplog r
unfolding replay_oplog_as_standalone
replay-HasNoOplog_iff r = (go r.spawned r.piped refl refl, from)
  where
    go :
        (s p : Bool)
        → r.spawned ≡ s
        → r.piped ≡ p
        → (if s
            then (if p then after_wait r (wait_up r.turns) else some (inr no_stdout))
            else some (inr spawn_failed))
          ≡ some (inl no_oplog)
        → HasNoOplog r
    go false p e f h = cc
    go true false e f h = cc
    go true true e f h =
        let (code, u, saw) = after_wait-no_oplog r (wait_up r.turns) h in
        record {
          spawned = e;
          piped = f;
          exits_early = (wait_up-ExitsEarly_iff r.turns).0 (code, u);
          said = sym (forward_log-saw r.lines nothing_observed) ∙ saw;
        }

    from : HasNoOplog r → replay_oplog_as_standalone r ≡ some (inl no_oplog)
    from w =
        let (code, u) = (wait_up-ExitsEarly_iff r.turns).1 w.exits_early in
        let saw = forward_log-saw r.lines nothing_observed ∙ w.said in
        let o = forward_log nothing_observed r.lines in
        rw (w.spawned, w.piped, u)
          (ap (λ v. some v) ((verdict-no_oplog_iff o.saw_no_oplog code o.last_fatal).1 saw))

wait_stopped_ends :
    (ts : List (Child × Duration))
    → Any (λ t. shutdown_limit ≤ t.1) ts
    → (w : Code ⊎ RecoveryError) × (wait_stopped ts ≡ some w)
unfolding wait_stopped
wait_stopped_ends [] h = absurd h
wait_stopped_ends ((wait_error, d) ∷ ts) h = (inr wait_failed, refl)
wait_stopped_ends ((exited code, d) ∷ ts) h = (inl code, refl)
wait_stopped_ends ((running, d) ∷ ts) (inl l) = (inr shutdown_late, ground (arith, l))
wait_stopped_ends ((running, d) ∷ ts) (inr h) = elim (Bool-cases (leb shutdown_limit d)) [
  | inl e ↦ (inr shutdown_late, rw e refl)
  | inr e ↦ let (w, q) = wait_stopped_ends ts h in (w, rw e q)
]

-- The wait for the shutdown ends: once the time since the signal reaches the limit, there is a
-- verdict.
pub stop_cleanly_ends :
    (p g : Bool) (ts : List (Child × Duration))
    → Any (λ t. shutdown_limit ≤ t.1) ts
    → (v : ReplayResult) × (stop_cleanly p g ts ≡ some v)
unfolding stop_cleanly
stop_cleanly_ends false g ts h = (inr no_pid, refl)
stop_cleanly_ends true false ts h = (inr signal_failed, refl)
stop_cleanly_ends true true ts h = let (w, e) = wait_stopped_ends ts h in (stopped w, rw e refl)
