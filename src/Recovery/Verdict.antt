-- ===== src/Recovery/Verdict.antt =====
-- When the recovery boot lets the standalone server start, and that it ends.
use mongo_ha.Base.{
  leb, Bool-cases, Option_map, any, Duration, ◌<◌, ◌≡◌, refl, ap, ◌∙◌, ◌≢◌, ◌↔◌, ◌⊎◌, inl, inr,
  Bool, true, false, ◌||◌, Option, none, some, List, [], ◌∷◌, arith,
}
use mongo_ha.Text.{Text}
use mongo_ha.Recovery.{
  Observed, is_no_oplog_line, observe_line, forward_log, replayed, no_oplog, Code, RecoveryError,
  early_exit_verdict, Child, running, wait_error, exited, Turn, up, early, wait_up, shutdown_limit,
  is_success, wait_stopped, stopped, stop_cleanly, Recovery,
}

pub forward_log-saw :
    (lines : List Text) (o : Observed)
    → (forward_log o lines).saw_no_oplog ≡ (o.saw_no_oplog || any is_no_oplog_line lines)
unfolding forward_log
forward_log-saw [] o = ground arith
forward_log-saw (line ∷ lines) o =
    forward_log-saw lines (observe_line o line) ∙ step (is_no_oplog_line line) refl
  where
    step :
        (b : Bool)
        → is_no_oplog_line line ≡ b
        → ((observe_line o line).saw_no_oplog || any is_no_oplog_line lines)
          ≡ (o.saw_no_oplog || (is_no_oplog_line line || any is_no_oplog_line lines))
    step true e = rw (e, observe_line) (ground arith)
    step false e = rw (e, observe_line) (ground arith)

-- A clean shutdown in time: the child exits with success after turns that are all below the limit.
abbrev pub StopsCleanly : List (Child × Duration) → Type 0
StopsCleanly [] = ⊥
StopsCleanly ((child, elapsed) ∷ ts) =
    (child ≡ exited (some 0)) ⊎ ((child ≡ running) × (elapsed < shutdown_limit) × StopsCleanly ts)

-- The server answers a ping, after turns in which the child runs and is silent.
abbrev pub ComesUp : List Turn → Type 0
ComesUp [] = ⊥
ComesUp ((child, ping) ∷ ts) = (child ≡ running) × ((ping ≡ true) ⊎ ((ping ≡ false) × ComesUp ts))

-- The child exits first.
abbrev pub ExitsEarly : List Turn → Type 0
ExitsEarly [] = ⊥
ExitsEarly ((child, ping) ∷ ts) =
    ((code : Code) × (child ≡ exited code)) ⊎ ((child ≡ running) × (ping ≡ false) × ExitsEarly ts)

-- The replay is on disk: the server came up, was told to stop and wrote its checkpoint.
pub record IsCheckpointed (r : Recovery) : Type 0 where
  pub spawned : r.spawned ≡ true
  pub piped : r.piped ≡ true
  pub comes_up : ComesUp r.turns
  pub has_pid : r.has_pid ≡ true
  pub signalled : r.signalled ≡ true
  pub stops_cleanly : StopsCleanly r.stop_turns

-- There was nothing to replay: the server exited before it came up, and said so.
pub record HasNoOplog (r : Recovery) : Type 0 where
  pub spawned : r.spawned ≡ true
  pub piped : r.piped ≡ true
  pub exits_early : ExitsEarly r.turns
  pub said : any is_no_oplog_line r.lines ≡ true

pub wait_up-ComesUp_iff : (ts : List Turn) → (wait_up ts ≡ some up) ↔ ComesUp ts
unfolding wait_up
wait_up-ComesUp_iff [] = (λ h. cc, λ h. absurd h)
wait_up-ComesUp_iff ((wait_error, p) ∷ ts) = (λ h. cc, λ (h, x). cc)
wait_up-ComesUp_iff ((exited code, p) ∷ ts) = (λ h. cc, λ (h, x). cc)
wait_up-ComesUp_iff ((running, true) ∷ ts) = (λ h. (refl, inl refl), λ h. refl)
wait_up-ComesUp_iff ((running, false) ∷ ts) =
    let (to, from) = wait_up-ComesUp_iff ts in
    (λ h. (refl, inr (refl, to h)), λ (c, x). elim x [ inl e ↦ cc | inr (e, u) ↦ from u ])

pub wait_up-ExitsEarly_iff :
    (ts : List Turn) → ((code : Code) × (wait_up ts ≡ some (early code))) ↔ ExitsEarly ts
unfolding wait_up
wait_up-ExitsEarly_iff [] = (λ (c, h). cc, λ h. absurd h)
wait_up-ExitsEarly_iff ((wait_error, p) ∷ ts) =
    (λ (c, h). cc, λ x. elim x [ inl (c, e) ↦ cc | inr (e, f, r) ↦ cc ])
wait_up-ExitsEarly_iff ((exited code, p) ∷ ts) = (λ h. inl (code, refl), λ x. (code, refl))
wait_up-ExitsEarly_iff ((running, true) ∷ ts) =
    (λ (c, h). cc, λ x. elim x [ inl (c, e) ↦ cc | inr (e, f, r) ↦ cc ])
wait_up-ExitsEarly_iff ((running, false) ∷ ts) =
    let (to, from) = wait_up-ExitsEarly_iff ts in
    (λ h. inr (refl, refl, to h), λ x. elim x [ inl (c, e) ↦ cc | inr (e, f, r) ↦ from r ])

wait_stopped-StopsCleanly_iff :
    (ts : List (Child × Duration))
    → ((code : Code) × (wait_stopped ts ≡ some (inl code)) × (is_success code ≡ true))
      ↔ StopsCleanly ts
unfolding wait_stopped
wait_stopped-StopsCleanly_iff [] = (λ (c, h, k). cc, λ h. absurd h)
wait_stopped-StopsCleanly_iff ((wait_error, d) ∷ ts) =
    (λ (c, h, k). cc, λ x. elim x [ inl e ↦ cc | inr (e, f, r) ↦ cc ])
wait_stopped-StopsCleanly_iff ((exited none, d) ∷ ts) =
    (λ (c, h, k). absurd (ground (arith, h, k)), λ x. elim x [ inl e ↦ cc | inr (e, f, r) ↦ cc ])
wait_stopped-StopsCleanly_iff ((exited (some n), d) ∷ ts) = (
  λ (c, h, k).
      let zero_code : n ≡ 0 = ground (arith, h, k) in inl (ap (λ n. exited (some n)) zero_code),
  λ x. elim x [ inl e ↦ (some n, refl, ground (arith, e)) | inr (e, f, r) ↦ cc ],
)
wait_stopped-StopsCleanly_iff ((running, d) ∷ ts) =
    let (to, from) = wait_stopped-StopsCleanly_iff ts in
    elim (Bool-cases (leb shutdown_limit d)) [
      | inl e ↦ (
        λ (c, h, k). absurd (ground (arith, e, h)),
        λ x. elim x [ inl f ↦ cc | inr (f, l, r) ↦ absurd (ground (arith, e, l)) ],
      )
      | inr e ↦ (
        λ (c, h, k). inr (refl, ground (arith, e), to (c, ground (arith, e, h), k)),
        λ x. elim x [
          | inl f ↦ cc
          | inr (f, l, r) ↦ let (c, h, k) = from r in (c, ground (arith, e, h), k)
        ],
      )
    ]

pub stop_cleanly-replayed_iff :
    (p g : Bool) (ts : List (Child × Duration))
    → (stop_cleanly p g ts ≡ some (inl replayed)) ↔ ((p ≡ true) × (g ≡ true) × StopsCleanly ts)
unfolding stop_cleanly
stop_cleanly-replayed_iff false g ts = (λ h. cc, λ (a, b, c). cc)
stop_cleanly-replayed_iff true false ts = (λ h. cc, λ (a, b, c). cc)
stop_cleanly-replayed_iff true true ts = (to, from)
  where
    ended :
        (w : Option (Code ⊎ RecoveryError))
        → Option_map stopped w ≡ some (inl replayed)
        → (code : Code) × (w ≡ some (inl code)) × (is_success code ≡ true)
    ended none h = cc
    ended (some (inr e)) h = cc
    ended (some (inl code)) h = elim (Bool-cases (is_success code)) [
      | inl e ↦ (code, refl, e)
      | inr e ↦ absurd (ground (arith, e, h))
    ]

    to :
        Option_map stopped (wait_stopped ts) ≡ some (inl replayed)
        → (true ≡ true) × (true ≡ true) × StopsCleanly ts
    to h = (refl, refl, (wait_stopped-StopsCleanly_iff ts).0 (ended (wait_stopped ts) h))

    from :
        (true ≡ true) × (true ≡ true) × StopsCleanly ts
        → Option_map stopped (wait_stopped ts) ≡ some (inl replayed)
    from (a, b, c) = let (code, e, f) = (wait_stopped-StopsCleanly_iff ts).1 c in rw (e, f) refl

-- A stop never answers that there is no oplog.
pub stop_cleanly-no_oplog :
    (p g : Bool) (ts : List (Child × Duration)) → stop_cleanly p g ts ≢ some (inl no_oplog)
unfolding stop_cleanly
stop_cleanly-no_oplog false g ts h = cc
stop_cleanly-no_oplog true false ts h = cc
stop_cleanly-no_oplog true true ts h = go (wait_stopped ts) h
  where
    go : (w : Option (Code ⊎ RecoveryError)) → Option_map stopped w ≢ some (inl no_oplog)
    go none h = cc
    go (some (inr e)) h = cc
    go (some (inl code)) h = ground (arith, h)

pub verdict-no_oplog_iff :
    (saw : Bool) (code : Code) (line : Option Text)
    → (early_exit_verdict saw code line ≡ inl no_oplog) ↔ (saw ≡ true)
unfolding early_exit_verdict
verdict-no_oplog_iff true code line = (λ h. refl, λ h. refl)
verdict-no_oplog_iff false code line = (λ h. cc, λ h. cc)

pub verdict-replayed :
    (saw : Bool) (code : Code) (line : Option Text)
    → early_exit_verdict saw code line ≢ inl replayed
unfolding early_exit_verdict
verdict-replayed true code line h = cc
verdict-replayed false code line h = cc
