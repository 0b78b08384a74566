-- ===== src/Supervise/Restart.antt =====
-- What a run of the supervisor does: which exits are clean, when a restart stops mongod, and which
-- keyfile mongod runs with.
use mongo_ha.Base.{
  if◌then◌else◌, Bool-cases, is_some_and, if_elim, All, Any, In, All-append, All-In, In-append,
  In-guard, append_nil, ◌≡◌, refl, sym, ap, ◌∙◌, ◌⊎◌, inl, inr, Bool, true, false, not, ◌||◌,
  Option, none, some, List, [], ◌∷◌, ◌++◌, arith,
}
use mongo_ha.Text.{Text}
use mongo_ha.Supervise.{
  Action, step_down, write_keyfile, set_loaded_keyfile, signal_mongod, kill_mongod, spawn_mongod,
  exit, Handoff, Shutdown, Event, restart_mongo, child_exited, terminated, Supervisor,
  graceful_shutdown, is_ok, says_primary, says_not_primary, handoff, same_key, restart,
  after_handoff, supervise_step, supervise, while_running, then_run,
}

-- A request to stop the container.
abbrev pub IsTermination : Event → Type 0
IsTermination (restart_mongo target h writable stop spawns) = ⊥
IsTermination (child_exited status) = ⊥
IsTermination (terminated h stop) = Unit {0}

-- The actions of a shutdown or of a restart are no exits.
abbrev Stays : Action → Type 0
Stays (exit code) = ⊥
Stays (step_down a b) = Unit {0}
Stays (write_keyfile k) = Unit {0}
Stays (set_loaded_keyfile k) = Unit {0}
Stays signal_mongod = Unit {0}
Stays kill_mongod = Unit {0}
Stays spawn_mongod = Unit {0}

graceful_shutdown-Stays : (stop : Shutdown) → All Stays (graceful_shutdown stop)
unfolding graceful_shutdown
graceful_shutdown-Stays stop =
    if_elim (All Stays) stop.has_pid _ _
      (λ e. if_elim (All Stays) stop.exits_in_time _ _ (λ f. (tt, tt)) (λ f. (tt, (tt, tt))))
      (λ e. tt)

restart-Stays :
    (target : Text) (writable : Bool) (stop : Shutdown) (spawns : Bool) (s : Supervisor)
    → All Stays (restart target writable stop spawns s).1
unfolding restart
restart-Stays target false stop spawns s = tt
restart-Stays target true stop true s =
    (tt, All-append Stays (graceful_shutdown stop) _ (graceful_shutdown-Stays stop) (tt, (tt, tt)))
restart-Stays target true stop false s = (tt, graceful_shutdown-Stays stop)

handoff-Stays : (h : Handoff) → All Stays (handoff h).0
unfolding handoff
handoff-Stays h = if_elim (All Stays) (says_primary h.first_hello) _ _ (λ e. (tt, tt)) (λ e. tt)

after_handoff-Stays :
    (acts : List Action) (done : Bool) (target : Text) (writable : Bool) (stop : Shutdown)
    (spawns : Bool) (s : Supervisor)
    → All Stays acts
    → All Stays (after_handoff (acts, done) target writable stop spawns s).1
after_handoff-Stays acts false target writable stop spawns s h = h
after_handoff-Stays acts true target writable stop spawns s h =
    All-append Stays acts _ h (restart-Stays target writable stop spawns s)

step-exit : (e : Event) (s : Supervisor) → In (exit 0) (supervise_step e s).1 → IsTermination e
unfolding supervise_step
step-exit (restart_mongo none h writable stop spawns) s m = m
step-exit (restart_mongo (some target) h writable stop spawns) s m =
    All-In Stays (supervise_step (restart_mongo (some target) h writable stop spawns) s).1 (exit 0)
      (if_elim (λ (r : Supervisor × List Action). All Stays r.1)
        (same_key s.loaded_keyfile target || not s.member) _ _ (λ e. tt)
        (λ e.
          after_handoff-Stays (handoff h).0 (handoff h).1 target writable stop spawns s
            (handoff-Stays h)))
      m
step-exit (child_exited status) s (inl e) = ground (arith, e)
step-exit (child_exited status) s (inr m) = absurd m
step-exit (terminated h stop) s m = tt

-- The supervisor exits with 0 only in a run with a request to terminate: when mongod ends by itself,
-- whatever its own code is, the exit is a failure.
pub supervise-exit :
    (es : List Event) (s : Supervisor) → In (exit 0) (supervise es s).1 → Any IsTermination es
unfolding supervise
supervise-exit [] s m = absurd m
supervise-exit (e ∷ es) s m = go (supervise-exit es (supervise_step e s).0) s.running m
  where
    go :
        (In (exit 0) (supervise es (supervise_step e s).0).1 → Any IsTermination es)
        → (b : Bool)
        → In (exit 0) (while_running b s (then_run (supervise_step e s) (supervise es))).1
        → Any IsTermination (e ∷ es)
    go rec false m = absurd m
    go rec true m =
        elim (In-append (exit 0) (supervise_step e s).1 (supervise es (supervise_step e s).0).1 m) [
          | inl k ↦ inl (step-exit e s k)
          | inr k ↦ inr (rec k)
        ]

-- The keyfile of the last write, if any.
abbrev pub last_written : Option Text → List Action → Option Text
last_written k [] = k
last_written k (write_keyfile t ∷ acts) = last_written (some t) acts
last_written k (step_down a b ∷ acts) = last_written k acts
last_written k (set_loaded_keyfile t ∷ acts) = last_written k acts
last_written k (signal_mongod ∷ acts) = last_written k acts
last_written k (kill_mongod ∷ acts) = last_written k acts
last_written k (spawn_mongod ∷ acts) = last_written k acts
last_written k (exit code ∷ acts) = last_written k acts

last_written-append :
    (k : Option Text) (xs ys : List Action)
    → last_written k (xs ++ ys) ≡ last_written (last_written k xs) ys
last_written-append k [] ys = refl
last_written-append k (write_keyfile t ∷ xs) ys = last_written-append (some t) xs ys
last_written-append k (step_down a b ∷ xs) ys = last_written-append k xs ys
last_written-append k (set_loaded_keyfile t ∷ xs) ys = last_written-append k xs ys
last_written-append k (signal_mongod ∷ xs) ys = last_written-append k xs ys
last_written-append k (kill_mongod ∷ xs) ys = last_written-append k xs ys
last_written-append k (spawn_mongod ∷ xs) ys = last_written-append k xs ys
last_written-append k (exit code ∷ xs) ys = last_written-append k xs ys

-- While the supervision goes on, the keyfile it holds for mongod's is the last one written.
abbrev pub IsCurrent : Supervisor → Supervisor × List Action → Type 0
IsCurrent s (t, acts) = t.running ≡ true → t.loaded_keyfile ≡ last_written s.loaded_keyfile acts

shutdown-last_written :
    (k : Option Text) (stop : Shutdown) (acts : List Action)
    → last_written k (graceful_shutdown stop ++ acts) ≡ last_written k acts
unfolding graceful_shutdown
shutdown-last_written k stop acts =
    if_elim (λ xs. last_written k (xs ++ acts) ≡ last_written k acts) stop.has_pid _ _
      (λ e.
        if_elim (λ xs. last_written k (xs ++ acts) ≡ last_written k acts) stop.exits_in_time _ _
          (λ f. refl) (λ f. refl))
      (λ e. refl)

handoff-last_written :
    (k : Option Text) (h : Handoff) (acts : List Action)
    → last_written k ((handoff h).0 ++ acts) ≡ last_written k acts
unfolding handoff
handoff-last_written k h acts =
    if_elim (λ xs. last_written k (xs ++ acts) ≡ last_written k acts) (says_primary h.first_hello) _
      _ (λ e. refl) (λ e. refl)

restart-IsCurrent :
    (target : Text) (writable : Bool) (stop : Shutdown) (spawns : Bool) (s : Supervisor)
    → IsCurrent s (restart target writable stop spawns s)
unfolding restart
restart-IsCurrent target false stop spawns s r = cc
restart-IsCurrent target true stop false s r = cc
restart-IsCurrent target true stop true s r =
    sym (shutdown-last_written (some target) stop (spawn_mongod ∷ set_loaded_keyfile target ∷ []))

after_handoff-IsCurrent :
    (h : Handoff) (done : Bool) (target : Text) (writable : Bool) (stop : Shutdown) (spawns : Bool)
    (s : Supervisor)
    → IsCurrent s (after_handoff ((handoff h).0, done) target writable stop spawns s)
after_handoff-IsCurrent h false target writable stop spawns s r = sym (
    sym (ap (last_written s.loaded_keyfile) (append_nil (handoff h).0))
    ∙ handoff-last_written s.loaded_keyfile h [])
after_handoff-IsCurrent h true target writable stop spawns s r =
    restart-IsCurrent target writable stop spawns s r
    ∙ sym (handoff-last_written s.loaded_keyfile h (restart target writable stop spawns s).1)

step-IsCurrent : (e : Event) (s : Supervisor) → IsCurrent s (supervise_step e s)
unfolding supervise_step
step-IsCurrent (restart_mongo none h writable stop spawns) s = λ r. refl
step-IsCurrent (restart_mongo (some target) h writable stop spawns) s =
    if_elim (IsCurrent s) (same_key s.loaded_keyfile target || not s.member) (s, [])
      (after_handoff (handoff h) target writable stop spawns s) (λ e r. refl)
      (λ e. after_handoff-IsCurrent h (handoff h).1 target writable stop spawns s)
step-IsCurrent (child_exited status) s = λ r. cc
step-IsCurrent (terminated h stop) s = λ r. cc

-- A supervision that has ended does nothing more.
ended_run : (es : List Event) (s : Supervisor) → s.running ≡ false → supervise es s ≡ (s, [])
unfolding supervise
ended_run [] s h = refl
ended_run (e ∷ es) s h = rw h refl

supervise-IsCurrent : (es : List Event) (s : Supervisor) → IsCurrent s (supervise es s)
unfolding supervise
supervise-IsCurrent [] s = λ r. refl
supervise-IsCurrent (e ∷ es) s =
    go (supervise_step e s) (step-IsCurrent e s) (supervise-IsCurrent es) s.running
  where
    go :
        (st : Supervisor × List Action)
        → IsCurrent s st
        → ((t : Supervisor) → IsCurrent t (supervise es t))
        → (b : Bool) → IsCurrent s (while_running b s (then_run st (supervise es)))
    go st h rec false r = refl
    go (t, acts) h rec true r = elim (Bool-cases t.running) [
      | inl e ↦
          rec t r
          ∙ ap (λ k. last_written k (supervise es t).1) (h e)
          ∙ sym (last_written-append s.loaded_keyfile acts (supervise es t).1)
      | inr e ↦ absurd (
          ground
            (arith, e, ap (λ (p : Supervisor × List Action). p.0.running) (ended_run es t e), r))
    ]

-- While the supervision goes on, whatever the events were, the keyfile that it holds for mongod's is
-- the last one it wrote, or the first one when it wrote none.
pub supervise-last_written :
    (es : List Event) (s : Supervisor)
    → (supervise es s).0.running ≡ true
    → (supervise es s).0.loaded_keyfile ≡ last_written s.loaded_keyfile (supervise es s).1
supervise-last_written es s r = supervise-IsCurrent es s r

-- What a restart has found before it stops mongod.
pub record IsHandedOff (s : Supervisor) (pinned : Option Text) (h : Handoff) : Type 0 where
  pub is_member : s.member ≡ true
  pub target : Text
  pub pinned_target : pinned ≡ some target
  pub is_new : same_key s.loaded_keyfile target ≡ false
  pub gave_up : (says_not_primary h.first_hello ≡ true) ⊎ (is_some_and h.stepped_down is_ok ≡ true)
  pub not_primary : says_not_primary h.second_hello ≡ true

handoff-done :
    (h : Handoff)
    → (handoff h).1 ≡ true
    → ((says_not_primary h.first_hello ≡ true) ⊎ (is_some_and h.stepped_down is_ok ≡ true))
      × (says_not_primary h.second_hello ≡ true)
unfolding handoff
handoff-done h d = elim (Bool-cases (says_not_primary h.first_hello)) [
  | inl e ↦ (inl e, ground (arith, d))
  | inr e ↦ (inr (ground (arith, d, e)), ground (arith, d))
]

handoff_quiet : (h : Handoff) → In signal_mongod (handoff h).0 → ⊥
unfolding handoff
handoff_quiet h m =
    let (e, f) = In-guard (says_primary h.first_hello) signal_mongod (step_down 60 10) m in cc

after_handoff-signal :
    (h : Handoff) (done : Bool) (target : Text) (writable : Bool) (stop : Shutdown) (spawns : Bool)
    (s : Supervisor)
    → In signal_mongod (after_handoff ((handoff h).0, done) target writable stop spawns s).1
    → done ≡ true
after_handoff-signal h false target writable stop spawns s m = absurd (handoff_quiet h m)
after_handoff-signal h true target writable stop spawns s m = refl

abbrev if_pair :
    Bool → Supervisor × List Action → Supervisor × List Action → Supervisor × List Action
if_pair b x y = if b then x else y

-- A restart for a new keyfile signals mongod only on a member whose pinned keyfile differs from the
-- loaded one, after a `hello` that named it no primary or a step-down that was accepted, and a
-- second `hello` that names it no primary.
pub restart-IsHandedOff :
    (pinned : Option Text) (h : Handoff) (writable : Bool) (stop : Shutdown) (spawns : Bool)
    (s : Supervisor)
    → In signal_mongod (supervise_step (restart_mongo pinned h writable stop spawns) s).1
    → IsHandedOff s pinned h
unfolding supervise_step
restart-IsHandedOff none h writable stop spawns s m = absurd m
restart-IsHandedOff (some target) h writable stop spawns s m =
    go (same_key s.loaded_keyfile target) s.member refl refl m
  where
    go :
        (same member : Bool)
        → same_key s.loaded_keyfile target ≡ same
        → s.member ≡ member
        → In signal_mongod
            (if_pair
              (same || not member)
              (s, [])
              (after_handoff (handoff h) target writable stop spawns s)).1
        → IsHandedOff s (some target) h
    go true member e f m = absurd m
    go false false e f m = absurd m
    go false true e f m =
        let (g, n) =
          handoff-done h (after_handoff-signal h (handoff h).1 target writable stop spawns s m) in
        record {
          is_member = f;
          target = target;
          pinned_target = refl;
          is_new = e;
          gave_up = g;
          not_primary = n;
        }
