-- ===== src/WrapperConfig.antt =====
-- mongo-wrapper/src/config.rs, with the readers of common/src/config.rs that it calls. An
-- environment gives the value of a variable, `none` when it is unset or not Unicode.
pub mod Validated
pub mod Seeds
mod Tests
use mongo_ha.Base.{
  ltb, leb, ◌==◌, if◌then◌else◌, ltb→lt, lt→ltb, leb→le, le→leb, leb→gt, ltb→ge, ==_iff, tests,
  Bool-cases, Option-cases, and_true, or_false, is_some, is_some_and, or_else, unwrap_or,
  Option_filter, and_then, Option_map, if_elim, All, Any, In, length, any, all, find, filter, count,
  position, length-append, count-le-length, find-eq-some, find-eq-none, any-eq-false, any-eq-true,
  all-eq-true, find_map, filter_map, All-append, All-In, Any-In, In-filter, In-map, List-cases,
  filter_map-append, filter_map-filter, filter-append, All-of_In, filter_map-In, In-filter_map,
  In-append_left, In-append_right, In-append, In-guard, guard-In, append_nil, append_assoc,
  Duration, Instant, nanos_per_sec, from_secs, from_millis, as_secs, duration_since, bit_xor-zero,
  bit_xor_refl, bit_or-zero, ℕ, zero, suc, ◌+◌, ◌-◌, ◌*◌, ◌/◌, ◌%◌, ◌^◌, bit_or, bit_xor, ◌≤◌, ◌<◌,
  min, max, String, ◌≡◌, refl, sym, ap, ◌∙◌, ◌≢◌, ◌↔◌, ◌⊎◌, inl, inr, Bool, true, false, not, ◌&&◌,
  ◌||◌, Option, none, some, List, [], ◌∷◌, ◌++◌, map, arith,
}
use mongo_ha.Text.{Text, codes, is_empty, text_eq, text_eq_refl, text_eq_iff, text_eq-ne}
use mongo_ha.Text.Case.{
  to_ascii_lowercase, eq_ignore_ascii_case, eq_ignore_ascii_case_iff, eq_ignore_ascii_case_refl,
  eq_ignore_ascii_case_symm, eq_ignore_ascii_case_trans,
}
use mongo_ha.Text.Trim.{is_whitespace, trim_start, trim, NoWhitespace, trim_id}
use mongo_ha.Text.Split.{
  split, first_piece, split_once, rsplit_once, split_two, split_once-eq-some, split_once_join,
}
use mongo_ha.Text.Number.{
  is_digit, digits_from, digits, unsigned_digits, parse_unsigned, decimal_within, decimal,
}
use mongo_ha.HealthAuth.{
  Credential, follows_pin, live_credential, byte_at, accumulate, constant_time_eq,
  split_once_whitespace, payload_of, basic_payload, halves_eq, decoded_halves, Verdict, next_run,
  refused, decoded_bytes, authorized, require,
}

abbrev pub Env : Type 0
Env = Text → Option Text

pub data ConfigError : Type 0 where
  missing_username missing_password missing_rs_key bad_rs_name : ConfigError

pub record Config : Type 0 where
  pub mongo_root_username : Text
  pub mongo_root_password : Text
  pub mongo_port : ℕ
  pub rs_enabled_flag : Bool
  pub rs_seeds : Option Text
  pub rs_name : Text
  pub rs_key : Option Text
  pub keyfile_path : Text
  pub health_port : ℕ
  pub health_api_username : Text
  pub health_api_password : Option Text
  pub private_domain : Text
  pub data_dir : Text
  pub peer_query_timeout_ms : ℕ
  pub bootstrap_dwell_seconds : ℕ
  pub demote_timeout_ms : ℕ
  pub peer_gone_dwell_seconds : ℕ
  pub member_prune_dwell_seconds : ℕ

unfoldable pub env_or : Env → Text → Text → Text
env_or env name default = unwrap_or (env name) default

-- `env_parse` at an unsigned type of `bits` bits.
unfoldable pub env_parse : ℕ → Env → Text → ℕ → ℕ
env_parse bits env name default =
    unwrap_or (and_then (env name) (λ v. parse_unsigned (2 ^ bits) v)) default

unfoldable pub private_domain_of : Env → Text
private_domain_of env = unwrap_or (env (codes "RAILWAY_PRIVATE_DOMAIN")) (codes "localhost")

unfoldable pub non_empty : Option Text → Option Text
non_empty v = Option_filter (λ s. not (is_empty (trim s))) v

abbrev pub default_health_api_username : Text
default_health_api_username = codes "railway"

unfoldable pub health_api_username_from : Option Text → Text
unfolding non_empty
health_api_username_from raw =
    unwrap_or (Option_map trim (non_empty raw)) default_health_api_username

unfoldable pub health_api_password_from : Option Text → Option Text
unfolding non_empty
health_api_password_from raw = Option_map trim (non_empty raw)

unfoldable pub health_api_password_is_blank : Option Text → Bool
health_api_password_is_blank raw = is_some_and raw (λ p. is_empty (trim p))

unfoldable pub data_dir_from_env : Env → Text
unfolding non_empty
data_dir_from_env env =
    unwrap_or
      (or_else (non_empty (env (codes "DATA_DIR")))
        (non_empty (env (codes "RAILWAY_VOLUME_MOUNT_PATH"))))
      (codes "/data/db")

unfoldable pub enabled_flag : Option Text → Bool
enabled_flag v = unwrap_or (Option_map (λ v. not (text_eq v (codes "false"))) v) true

unfoldable pub rs_enabled : Config → Bool
rs_enabled c = c.rs_enabled_flag && is_some c.rs_seeds

-- The value that is built before it is validated.
unfoldable pub config_of : Env → Text → Text → Config
config_of env username password = record {
  mongo_root_username = username;
  mongo_root_password = password;
  mongo_port = env_parse 16 env (codes "MONGO_PORT") 27017;
  rs_enabled_flag = enabled_flag (env (codes "RS_ENABLED"));
  rs_seeds = non_empty (env (codes "RS_SEEDS"));
  rs_name = env_or env (codes "RS_NAME") (codes "rs0");
  rs_key = non_empty (env (codes "RS_KEY"));
  keyfile_path = env_or env (codes "RS_KEYFILE_PATH") (codes "/run/mongo-ha/keyfile");
  health_port = env_parse 16 env (codes "HEALTH_PORT") 8080;
  health_api_username = health_api_username_from (env (codes "HEALTH_API_USERNAME"));
  health_api_password = health_api_password_from (env (codes "HEALTH_API_PASSWORD"));
  private_domain = private_domain_of env;
  data_dir = data_dir_from_env env;
  peer_query_timeout_ms = env_parse 64 env (codes "PEER_QUERY_TIMEOUT_MS") 2000;
  bootstrap_dwell_seconds = env_parse 64 env (codes "BOOTSTRAP_DWELL_SECONDS") 15;
  demote_timeout_ms = env_parse 64 env (codes "DEMOTE_TIMEOUT_MS") 20000;
  peer_gone_dwell_seconds = env_parse 64 env (codes "PEER_GONE_DWELL_SECONDS") 1800;
  member_prune_dwell_seconds = env_parse 64 env (codes "MEMBER_PRUNE_DWELL_SECONDS") 300;
}

abbrev pub ConfigResult : Type 0
ConfigResult = Config ⊎ ConfigError

unfoldable pub bad_name : Text → Bool
bad_name name = is_empty name || any is_whitespace name

unfoldable pub validated : Config → ConfigResult
unfolding rs_enabled bad_name
validated c =
    if rs_enabled c && not (is_some c.rs_key)
    then inr missing_rs_key
    else (if bad_name c.rs_name then inr bad_rs_name else inl c)

abbrev pub with_credentials : Env → Option Text → Option Text → ConfigResult
with_credentials env none password = inr missing_username
with_credentials env (some username) none = inr missing_password
with_credentials env (some username) (some password) = validated (config_of env username password)

unfoldable pub from_env : Env → ConfigResult
unfolding validated config_of
from_env env =
    with_credentials env (env (codes "MONGO_INITDB_ROOT_USERNAME"))
      (env (codes "MONGO_INITDB_ROOT_PASSWORD"))

unfoldable pub health_api_credential : Config → Option Credential
health_api_credential c =
    Option_map (λ p. record { username = c.health_api_username; password = p })
      c.health_api_password

-- Whether any of the files that a dataset always carries is in the directory.
abbrev pub dataset_files : List Text
dataset_files = codes "WiredTiger" ∷ codes "journal" ∷ codes "local.0" ∷ codes "storage.bson" ∷ []

unfoldable pub datadir_is_initialized : (Text → Bool) → Bool
datadir_is_initialized exists = any exists dataset_files

unfoldable pub node_id : Config → Text
node_id c = c.private_domain ++ b':' ∷ decimal c.mongo_port

unfoldable pub seed_host : Text → Text
seed_host entry = first_piece b':' (trim entry)

unfoldable pub seed_hosts : Config → List Text
unfolding seed_host
seed_hosts c =
    unwrap_or
      (Option_map (λ s. filter (λ h. not (is_empty h)) (map seed_host (split b',' s))) c.rs_seeds)
      []

unfoldable pub peer_hosts : Config → List Text
unfolding seed_hosts
peer_hosts c = filter (λ h. not (eq_ignore_ascii_case h c.private_domain)) (seed_hosts c)

unfoldable pub seed_rank : Config → Text → Option ℕ
unfolding seed_hosts
seed_rank c host = position (λ h. eq_ignore_ascii_case h host) (seed_hosts c)

unfoldable pub my_seed_rank : Config → Option ℕ
unfolding seed_rank
my_seed_rank c = seed_rank c c.private_domain
