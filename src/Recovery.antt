-- ===== src/Recovery.antt =====
-- mongo-wrapper/src/standalone_recovery.rs: the oplog replay before a replica set volume boots as a
-- standalone. What the children, the pings and the clock answer is given as values.
pub mod Verdict
pub mod Outcome
mod Tests
use mongo_ha.Base.{
  ltb, leb, ◌==◌, if◌then◌else◌, ltb→lt, lt→ltb, leb→le, le→leb, leb→gt, ltb→ge, ==_iff, tests,
  Bool-cases, Option-cases, and_true, or_false, is_some, is_some_and, or_else, unwrap_or,
  Option_filter, and_then, Option_map, if_elim, All, Any, In, length, any, all, find, filter, count,
  position, length-append, count-le-length, find-eq-some, find-eq-none, any-eq-false, any-eq-true,
  all-eq-true, find_map, filter_map, All-append, All-In, Any-In, In-filter, In-map, List-cases,
  filter_map-append, filter_map-filter, filter-append, All-of_In, filter_map-In, In-filter_map,
  In-append_left, In-append_right, In-append, In-guard, guard-In, append_nil, append_assoc,
  Duration, Instant, nanos_per_sec, from_secs, from_millis, as_secs, duration_since, bit_xor-zero,
  bit_xor_refl, bit_or-zero, ℕ, zero, suc, ◌+◌, ◌-◌, ◌*◌, ◌/◌, ◌%◌, ◌^◌, bit_or, bit_xor, ◌≤◌, ◌<◌,
  min, max, String, ◌≡◌, refl, sym, ap, ◌∙◌, ◌≢◌, ◌↔◌, ◌⊎◌, inl, inr, Bool, true, false, not, ◌&&◌,
  ◌||◌, Option, none, some, List, [], ◌∷◌, ◌++◌, map, arith,
}
use mongo_ha.Text.{Text, codes, is_empty, text_eq, text_eq_refl, text_eq_iff, text_eq-ne}
use mongo_ha.Text.Trim.{is_whitespace, trim_start, trim, NoWhitespace, trim_id}
use mongo_ha.Text.Number.{
  is_digit, digits_from, digits, unsigned_digits, parse_unsigned, decimal_within, decimal,
}
use mongo_ha.WrapperConfig.{
  Env, ConfigError, missing_username, missing_password, missing_rs_key, bad_rs_name, Config, env_or,
  env_parse, private_domain_of, non_empty, default_health_api_username, health_api_username_from,
  health_api_password_from, health_api_password_is_blank, data_dir_from_env, enabled_flag,
  rs_enabled, config_of, ConfigResult, bad_name, validated, with_credentials, from_env,
  health_api_credential, dataset_files, datadir_is_initialized, node_id, seed_host, seed_hosts,
  peer_hosts, seed_rank, my_seed_rank,
}
use mongo_ha.AuthPin.{
  AuthPin, BootCredentials, PasswordProbe, works, access_denied, not_ready, pinned_keyfile,
  write_password_pin, keyfile_drifted, resolved_keyfile, resolve_boot_credentials, Resolver, Pass,
  is_works, adopt_pending, same_option, pin_eq, pin_written, judged, prove_active, env_judged,
  try_environment, resolver_pass, active_password, replay_needed,
}

-- `str::starts_with`, with what follows the prefix.
unfoldable pub strip_prefix : Text → Text → Option Text
strip_prefix [] s = some s
strip_prefix (c ∷ p) [] = none
strip_prefix (c ∷ p) (d ∷ s) = let rest = strip_prefix p s in if c == d then rest else none

-- `split_once` on a text: what follows its first occurrence.
unfoldable pub after_first : Text → Text → Option Text
unfolding strip_prefix
after_first pattern [] = strip_prefix pattern []
after_first pattern (c ∷ s) =
    let later = after_first pattern s in or_else (strip_prefix pattern (c ∷ s)) later

-- `take_while(|c| c.is_ascii_digit())`
unfoldable pub take_digits : Text → Text
take_digits [] = []
take_digits (c ∷ s) = let rest = take_digits s in if is_digit c then c ∷ rest else []

-- Digits that parse to an i32 are below 2 ^ 31.
unfoldable pub mongod_log_id : Text → Option ℕ
unfolding after_first take_digits
mongod_log_id line =
    and_then (after_first (codes "\"id\":") line)
      (λ rest. parse_unsigned (2 ^ 31) (take_digits (trim_start rest)))

unfoldable pub is_fatal_line : Text → Bool
unfolding after_first
is_fatal_line line = is_some (after_first (codes "\"s\":\"F\"") line)

abbrev pub no_oplog_log_id : ℕ
no_oplog_log_id = 31364

-- What the log has shown.
pub record Observed : Type 0 where
  pub saw_no_oplog : Bool
  pub last_fatal : Option Text

abbrev pub nothing_observed : Observed
nothing_observed = record { saw_no_oplog = false; last_fatal = none }

abbrev pub is_no_oplog_line : Text → Bool
is_no_oplog_line line = is_some_and (mongod_log_id line) (λ id. id == no_oplog_log_id)

-- One line of `forward_log`.
unfoldable pub observe_line : Observed → Text → Observed
unfolding mongod_log_id is_fatal_line
observe_line o line = record {
  saw_no_oplog = if is_no_oplog_line line then true else o.saw_no_oplog;
  last_fatal = if is_fatal_line line then some line else o.last_fatal;
}

unfoldable pub forward_log : Observed → List Text → Observed
unfolding observe_line
forward_log o [] = o
forward_log o (line ∷ lines) = forward_log (observe_line o line) lines

unfoldable pub recovery_flags : Config → List Text
recovery_flags c =
    let dbpath : List Text =
      if text_eq c.data_dir (codes "/data/db") then [] else codes "--dbpath" ∷ c.data_dir ∷ [] in
    (codes "--bind_ip" ∷ codes "127.0.0.1" ∷ codes "--port" ∷ decimal c.mongo_port ∷ dbpath)
    ++ codes "--setParameter"
      ∷ codes "recoverFromOplogAsStandalone=true"
      ∷ codes "--setParameter"
      ∷ codes "takeUnstableCheckpointOnShutdown=true"
      ∷ []

pub data Replay : Type 0 where
  replayed no_oplog : Replay

-- An exit status: the code, or `none` for a signal.
abbrev pub Code : Type 0
Code = Option ℕ

pub data RecoveryError : Type 0 where
  spawn_failed no_stdout wait_failed no_pid signal_failed shutdown_late : RecoveryError
  recovery_failed : Code → Option Text → RecoveryError
  bad_shutdown : Code → RecoveryError

abbrev pub ReplayResult : Type 0
ReplayResult = Replay ⊎ RecoveryError

unfoldable pub early_exit_verdict : Bool → Code → Option Text → ReplayResult
early_exit_verdict saw_no_oplog code last_fatal =
    if saw_no_oplog then inl no_oplog else inr (recovery_failed code last_fatal)

-- What `try_wait` answers.
pub data Child : Type 0 where
  running wait_error : Child
  exited : Code → Child

-- One turn of the loop that waits for the recovery server: the child, then the ping.
abbrev pub Turn : Type 0
Turn = Child × Bool

pub data Waited : Type 0 where
  up broken : Waited
  early : Code → Waited

-- `none` when the turns end before the loop does.
unfoldable pub wait_up : List Turn → Option Waited
wait_up [] = none
wait_up ((child, ping) ∷ ts) = elim child [
  | wait_error ↦ some broken
  | exited code ↦ some (early code)
  | running ↦ if ping then some up else wait_up ts
]

abbrev pub shutdown_limit : Duration
shutdown_limit = from_secs 1800

abbrev pub is_success : Code → Bool
is_success none = false
is_success (some code) = code == 0

-- The loop of `stop_cleanly`: the child, and the time since the signal.
unfoldable pub wait_stopped : List (Child × Duration) → Option (Code ⊎ RecoveryError)
wait_stopped [] = none
wait_stopped ((child, elapsed) ∷ ts) = elim child [
  | wait_error ↦ some (inr wait_failed)
  | exited code ↦ some (inl code)
  | running ↦ if leb shutdown_limit elapsed then some (inr shutdown_late) else wait_stopped ts
]

abbrev pub stopped : Code ⊎ RecoveryError → ReplayResult
stopped (inr e) = inr e
stopped (inl code) = if is_success code then inl replayed else inr (bad_shutdown code)

-- The child has a pid, and the signal is sent.
unfoldable pub stop_cleanly : Bool → Bool → List (Child × Duration) → Option ReplayResult
unfolding wait_stopped
stop_cleanly has_pid signalled turns =
    if has_pid
    then (if signalled then Option_map stopped (wait_stopped turns) else some (inr signal_failed))
    else some (inr no_pid)

-- What a recovery boot meets: the spawn, the pipe, the turns of the two loops, the lines that are
-- read by the time of the verdict, and the signal.
pub record Recovery : Type 0 where
  pub spawned : Bool
  pub piped : Bool
  pub turns : List Turn
  pub lines : List Text
  pub has_pid : Bool
  pub signalled : Bool
  pub stop_turns : List (Child × Duration)

abbrev pub after_wait : Recovery → Option Waited → Option ReplayResult
after_wait r none = none
after_wait r (some broken) = some (inr wait_failed)
after_wait r (some (early code)) =
    let o = forward_log nothing_observed r.lines in
    some (early_exit_verdict o.saw_no_oplog code o.last_fatal)
after_wait r (some up) = stop_cleanly r.has_pid r.signalled r.stop_turns

-- `none` while it runs.
unfoldable pub replay_oplog_as_standalone : Recovery → Option ReplayResult
unfolding wait_up forward_log early_exit_verdict stop_cleanly
replay_oplog_as_standalone r =
    if r.spawned
    then (if r.piped then after_wait r (wait_up r.turns) else some (inr no_stdout))
    else some (inr spawn_failed)
