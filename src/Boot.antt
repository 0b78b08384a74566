-- ===== src/Boot.antt =====
-- mongo-wrapper/src/main.rs: what a boot does before it supervises mongod. The volume, the machine
-- and the recovery boot are values; `derive` is the hash of keyfile.rs.
pub mod Keyed
pub mod Standalone
pub mod Options
mod Tests
use mongo_ha.Base.{
  ltb, leb, ◌==◌, if◌then◌else◌, ltb→lt, lt→ltb, leb→le, le→leb, leb→gt, ltb→ge, ==_iff, tests,
  Bool-cases, Option-cases, and_true, or_false, is_some, is_some_and, or_else, unwrap_or,
  Option_filter, and_then, Option_map, if_elim, All, Any, In, length, any, all, find, filter, count,
  position, length-append, count-le-length, find-eq-some, find-eq-none, any-eq-false, any-eq-true,
  all-eq-true, find_map, filter_map, All-append, All-In, Any-In, In-filter, In-map, List-cases,
  filter_map-append, filter_map-filter, filter-append, All-of_In, filter_map-In, In-filter_map,
  In-append_left, In-append_right, In-append, In-guard, guard-In, append_nil, append_assoc,
  Duration, Instant, nanos_per_sec, from_secs, from_millis, as_secs, duration_since, bit_xor-zero,
  bit_xor_refl, bit_or-zero, ℕ, zero, suc, ◌+◌, ◌-◌, ◌*◌, ◌/◌, ◌%◌, ◌^◌, bit_or, bit_xor, ◌≤◌, ◌<◌,
  min, max, String, ◌≡◌, refl, sym, ap, ◌∙◌, ◌≢◌, ◌↔◌, ◌⊎◌, inl, inr, Bool, true, false, not, ◌&&◌,
  ◌||◌, Option, none, some, List, [], ◌∷◌, ◌++◌, map, arith,
}
use mongo_ha.Text.{Text, codes, is_empty, text_eq, text_eq_refl, text_eq_iff, text_eq-ne}
use mongo_ha.Text.Number.{
  is_digit, digits_from, digits, unsigned_digits, parse_unsigned, decimal_within, decimal,
}
use mongo_ha.WrapperConfig.{
  Env, ConfigError, missing_username, missing_password, missing_rs_key, bad_rs_name, Config, env_or,
  env_parse, private_domain_of, non_empty, default_health_api_username, health_api_username_from,
  health_api_password_from, health_api_password_is_blank, data_dir_from_env, enabled_flag,
  rs_enabled, config_of, ConfigResult, bad_name, validated, with_credentials, from_env,
  health_api_credential, dataset_files, datadir_is_initialized, node_id, seed_host, seed_hosts,
  peer_hosts, seed_rank, my_seed_rank,
}
use mongo_ha.Passthrough.{
  strip_dashes, named, option_name, is_option, args_set, next_value, value_in, arg_value,
  overridden, Shape, plain, paired, bare, shape_from, shape_of, merge_own_flags, passthrough_port,
  passthrough_dbpath,
}
use mongo_ha.AuthPin.{
  AuthPin, BootCredentials, PasswordProbe, works, access_denied, not_ready, pinned_keyfile,
  write_password_pin, keyfile_drifted, resolved_keyfile, resolve_boot_credentials, Resolver, Pass,
  is_works, adopt_pending, same_option, pin_eq, pin_written, judged, prove_active, env_judged,
  try_environment, resolver_pass, active_password, replay_needed,
}
use mongo_ha.Recovery.{
  strip_prefix, after_first, take_digits, mongod_log_id, is_fatal_line, no_oplog_log_id, Observed,
  nothing_observed, is_no_oplog_line, observe_line, forward_log, recovery_flags, Replay, replayed,
  no_oplog, Code, RecoveryError, spawn_failed, no_stdout, wait_failed, no_pid, signal_failed,
  shutdown_late, recovery_failed, bad_shutdown, ReplayResult, early_exit_verdict, Child, running,
  wait_error, exited, Turn, Waited, up, broken, early, wait_up, shutdown_limit, is_success,
  wait_stopped, stopped, stop_cleanly, Recovery, after_wait, replay_oplog_as_standalone,
}

-- The port and the dbpath of the args replace the configured ones.
unfoldable pub with_passthrough : Config → List Text → Config
with_passthrough c args =
    let d = record c { mongo_port = unwrap_or (passthrough_port args) c.mongo_port } in
    record d { data_dir = unwrap_or (passthrough_dbpath args) c.data_dir }

unfoldable pub own_flags : Config → List Text
own_flags c =
    let dbpath : List Text =
      if text_eq c.data_dir (codes "/data/db") then [] else codes "--dbpath" ∷ c.data_dir ∷ [] in
    codes "--bind_ip_all" ∷ codes "--ipv6" ∷ codes "--port" ∷ decimal c.mongo_port ∷ dbpath

abbrev pub member_flags : Config → List Text
member_flags c = codes "--replSet" ∷ c.rs_name ∷ codes "--keyFile" ∷ c.keyfile_path ∷ []

-- process_manager.rs: `mongod_command`, the arguments after `mongod`.
unfoldable pub mongod_argv : List Text → List Text → List Text
mongod_argv flags args = flags ++ args

-- What the volume holds.
pub record Volume : Type 0 where
  pub has_data : Bool
  pub marker : Bool
  pub pin : Option AuthPin

-- What the machine and the peers answer to a boot: the lock, the key of a live set, the writes, the
-- removal of the marker, the recovery boot, the address of this host and the spawn.
pub record Machine : Type 0 where
  pub lock_acquired : Bool
  pub keyfile_reconciled : Bool
  pub live_set_keyfile : Option Text
  pub keyfile_writable : Bool
  pub marker_writable : Bool
  pub marker_removable : Bool
  pub recovery : Recovery
  pub address_local : Bool
  pub spawned : Bool

-- How a boot ends: mongod runs with these flags, the process exits with a code, `main` returns an
-- error, or it panics.
pub data End : Type 0 where
  supervising : List Text → End
  exit_code : ℕ → End
  failed panicked : End

pub record Booted : Type 0 where
  pub marker : Bool
  pub end : End

abbrev pub lacks_keyfile : Option AuthPin → Bool
lacks_keyfile pin = not (is_some (pinned_keyfile pin))

abbrev pub recovery_fail_exit_code : ℕ
recovery_fail_exit_code = 78

abbrev pub marker_after_clear : Machine → Bool → Bool
marker_after_clear m marker = marker && not m.marker_removable

abbrev pub spawn_mongod : Machine → List Text → End
spawn_mongod m flags = if m.spawned then supervising flags else failed

-- The branch of a standalone boot; `none` while the recovery boot runs.
abbrev pub after_replay : Machine → Volume → List Text → Option ReplayResult → Option Booted
after_replay m v flags none = none
after_replay m v flags (some (inl outcome)) =
    some (record { marker = marker_after_clear m v.marker; end = spawn_mongod m flags })
after_replay m v flags (some (inr e)) =
    some (record { marker = v.marker; end = exit_code recovery_fail_exit_code })

unfoldable pub standalone_boot : Machine → Volume → List Text → Option Booted
standalone_boot m v flags =
    if not v.has_data
    then some (record { marker = marker_after_clear m v.marker; end = spawn_mongod m flags })
    else (if replay_needed v.has_data v.marker v.pin
        then after_replay m v flags (replay_oplog_as_standalone m.recovery)
        else some (record { marker = v.marker; end = spawn_mongod m flags }))

-- The branch of a member, with the keyfile that the credentials resolved.
unfoldable pub member_boot : Machine → Volume → Config → List Text → Option Text → Booted
member_boot m v c flags none = record { marker = v.marker; end = panicked }
member_boot m v c flags (some keyfile) =
    if m.keyfile_writable
    then record {
      marker = v.marker || m.marker_writable;
      end =
          if v.has_data && not m.address_local
          then failed
          else spawn_mongod m (flags ++ member_flags c);
    }
    else record { marker = v.marker; end = failed }

module _ (derive : Text → Text) where
  -- The credentials of a boot. A live set's key is asked for only by a member without a pinned one.
  unfoldable pub boot_credentials : Config → Volume → Machine → BootCredentials
  boot_credentials c v m =
      let live = if rs_enabled c && lacks_keyfile v.pin then m.live_set_keyfile else none in
      resolve_boot_credentials derive v.pin c.mongo_root_password
        (if rs_enabled c then c.rs_key else none) live

  abbrev pub boot_modes : Config → Volume → Machine → List Text → Option Booted
  boot_modes c v m flags =
      if rs_enabled c
      then some (member_boot m v c flags (boot_credentials c v m).keyfile)
      else standalone_boot m v flags

  unfoldable pub boot : Config → Volume → Machine → List Text → Option Booted
  unfolding boot_credentials
  boot config v m args =
      let c = with_passthrough config args in
      if not m.lock_acquired || (rs_enabled c && not m.keyfile_reconciled)
      then some (record { marker = v.marker; end = failed })
      else boot_modes c v m (merge_own_flags (own_flags c) args)
