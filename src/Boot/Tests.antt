-- ===== src/Boot/Tests.antt =====
-- A volume that ran as a member, reverted to a standalone.
use mongo_ha.Base.{
  ◌+◌, if◌then◌else◌, from_secs, ◌≤◌, ◌≡◌, refl, ◌≢◌, ◌⊎◌, inl, inr, true, false, none, some, List,
  [], ◌∷◌, ◌++◌,
}
use mongo_ha.Text.{Text, codes, text_eq}
use mongo_ha.Text.Trim
use mongo_ha.Text.Split
use mongo_ha.Text.Number
use mongo_ha.WrapperConfig.{
  Env, Config, env_or, env_parse, private_domain_of, non_empty, data_dir_from_env, enabled_flag,
  rs_enabled, config_of, bad_name, from_env,
}
use mongo_ha.Passthrough.{
  option_name, args_set, arg_value, overridden, merge_own_flags, passthrough_port,
  passthrough_dbpath,
}
use mongo_ha.AuthPin
use mongo_ha.Recovery.{recovery_flags, running, exited, Recovery, replay_oplog_as_standalone}
use mongo_ha.Boot.{
  with_passthrough, own_flags, mongod_argv, Volume, Machine, supervising, exit_code, panicked,
  standalone_boot, member_boot, boot, member_flags,
}
use mongo_ha.Boot.Keyed.{boot-panicked}
use mongo_ha.Boot.Standalone.{IsSafe, Stops, no_attempt, attempt, revert-IsSafe}
use mongo_ha.Boot.Options.{occurrences, merged_occurrences, recovery_repeats}

-- A stand-in for the hash.
abbrev derive : Text → Text
derive key = codes "k" ++ key

abbrev member_env : Env
member_env name =
    if text_eq name (codes "RS_SEEDS")
    then some (codes "mongo-1:27017")
    else (if text_eq name (codes "RS_ENABLED") then none else some (codes "value"))

abbrev standalone_env : Env
standalone_env name = if text_eq name (codes "RS_SEEDS") then none else some (codes "value")

abbrev member_config : Config
member_config = config_of member_env (codes "value") (codes "value")

abbrev standalone_config : Config
standalone_config = config_of standalone_env (codes "value") (codes "value")

abbrev working : Recovery
working = record {
  spawned = true;
  piped = true;
  turns = (running, true) ∷ [];
  lines = [];
  has_pid = true;
  signalled = true;
  stop_turns = (exited (some 0), from_secs 2) ∷ [];
}

abbrev killed : Recovery
killed = record working { turns = (exited none, false) ∷ [] }

abbrev machine : Recovery → Machine
machine r = record {
  lock_acquired = true;
  keyfile_reconciled = true;
  live_set_keyfile = none;
  keyfile_writable = true;
  marker_writable = true;
  marker_removable = true;
  recovery = r;
  address_local = true;
  spawned = true;
}

abbrev fresh : Volume
fresh = record { has_data = false; marker = false; pin = none }

abbrev ran : Volume
ran = record { has_data = true; marker = true; pin = none }

abbrev official : List Text
official = codes "--ipv6" ∷ codes "--bind_ip" ∷ codes "::" ∷ []

abbrev member_argv : List Text
member_argv =
    codes "--port"
    ∷ codes "27017"
    ∷ codes "--dbpath"
    ∷ codes "value"
    ∷ codes "--replSet"
    ∷ codes "value"
    ∷ codes "--keyFile"
    ∷ codes "value"
    ∷ []

member_ends :
    boot derive member_config fresh (machine working) official
    ≡ some (record { marker = true; end = supervising member_argv })
unfolding boot rs_enabled with_passthrough config_of enabled_flag text_eq non_empty Trim.trim
    member_boot AuthPin.resolve_boot_credentials merge_own_flags own_flags Number.is_digit
    Split.first_piece Number.decimal passthrough_port env_parse Number.parse_unsigned
    passthrough_dbpath data_dir_from_env env_or arg_value args_set overridden option_name
    Split.split_once private_domain_of
member_ends = refl

killed_ends :
    boot derive standalone_config ran (machine killed) []
    ≡ some (record { marker = true; end = exit_code 78 })
unfolding boot rs_enabled with_passthrough config_of enabled_flag text_eq non_empty standalone_boot
    AuthPin.replay_needed replay_oplog_as_standalone
killed_ends = refl

-- A recovery server that was killed before it came up shows nothing.
killed_unsafe : IsSafe killed → ⊥
killed_unsafe (inl w) = let (e, x) = w.comes_up in cc
killed_unsafe (inr w) = let said = w.said in cc

revert-IsSafe_example : IsSafe killed ⊎ Stops ran (record { marker = true; end = exit_code 78 })
unfolding config_of rs_enabled non_empty enabled_flag text_eq Trim.trim
revert-IsSafe_example =
    revert-IsSafe derive member_config standalone_config fresh ran (machine working)
      (machine killed) official [] (record { marker = true; end = supervising member_argv })
      (record { marker = true; end = exit_code 78 }) member_argv refl member_ends refl refl
      (attempt ran ran standalone_config (machine killed) []
        (record { marker = true; end = exit_code 78 }) (no_attempt ran) refl killed_ends
        killed_unsafe)
      refl killed_ends

boot-panicked_example : supervising member_argv ≢ panicked
unfolding from_env config_of rs_enabled non_empty enabled_flag text_eq Trim.trim bad_name
    Trim.is_whitespace env_or
boot-panicked_example =
    boot-panicked derive member_env member_config fresh (machine working) official
      (record { marker = true; end = supervising member_argv }) refl member_ends

merged_occurrences_example :
    (occurrences
        (codes "bind_ip_all")
        (mongod_argv (merge_own_flags (own_flags member_config) official) official)
      ≡ occurrences (codes "bind_ip_all") official)
    × (occurrences (codes "bind_ip_all") (
          mongod_argv
            (merge_own_flags (own_flags member_config) official ++ member_flags member_config)
            official)
        ≡ occurrences (codes "bind_ip_all") (member_flags member_config)
          + occurrences (codes "bind_ip_all") official)
unfolding option_name text_eq Split.first_piece Number.is_digit
merged_occurrences_example =
    merged_occurrences member_config official (codes "bind_ip_all")
      (inr (inl (refl, inr (inl refl))))

recovery_repeats_example :
    2 ≤ occurrences (codes "bind_ip") (mongod_argv (recovery_flags standalone_config) official)
unfolding args_set option_name text_eq Split.first_piece Number.is_digit
recovery_repeats_example =
    recovery_repeats standalone_config official (codes "bind_ip") (inl refl) refl
