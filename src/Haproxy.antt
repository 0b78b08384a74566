-- ===== src/Haproxy.antt =====
-- haproxy/src/nodes.rs, config.rs and monitoring.rs: the edge in front of the members.
pub mod Template
pub mod Edge
mod Tests
use mongo_ha.Base.{
  ltb, leb, ◌==◌, if◌then◌else◌, ltb→lt, lt→ltb, leb→le, le→leb, leb→gt, ltb→ge, ==_iff, tests,
  Bool-cases, Option-cases, and_true, or_false, is_some, is_some_and, or_else, unwrap_or,
  Option_filter, and_then, Option_map, if_elim, All, Any, In, length, any, all, find, filter, count,
  position, length-append, count-le-length, find-eq-some, find-eq-none, any-eq-false, any-eq-true,
  all-eq-true, find_map, filter_map, All-append, All-In, Any-In, In-filter, In-map, List-cases,
  filter_map-append, filter_map-filter, filter-append, All-of_In, filter_map-In, In-filter_map,
  In-append_left, In-append_right, In-append, In-guard, guard-In, append_nil, append_assoc,
  Duration, Instant, nanos_per_sec, from_secs, from_millis, as_secs, duration_since, bit_xor-zero,
  bit_xor_refl, bit_or-zero, ℕ, zero, suc, ◌+◌, ◌-◌, ◌*◌, ◌/◌, ◌%◌, ◌^◌, bit_or, bit_xor, ◌≤◌, ◌<◌,
  min, max, String, ◌≡◌, refl, sym, ap, ◌∙◌, ◌≢◌, ◌↔◌, ◌⊎◌, inl, inr, Bool, true, false, not, ◌&&◌,
  ◌||◌, Option, none, some, List, [], ◌∷◌, ◌++◌, map, arith,
}
use mongo_ha.Text.{Text, codes, is_empty, text_eq, text_eq_refl, text_eq_iff, text_eq-ne}
use mongo_ha.Text.Trim.{is_whitespace, trim_start, trim, NoWhitespace, trim_id}
use mongo_ha.Text.Split.{
  split, first_piece, split_once, rsplit_once, split_join_step, split_lacks, split_one, split_two,
  split_once-eq-some, split_once_join,
}
use mongo_ha.Text.Number.{
  is_digit, digits_from, digits, unsigned_digits, parse_unsigned, decimal_within, decimal,
}
use mongo_ha.WrapperConfig.{
  Env, ConfigError, missing_username, missing_password, missing_rs_key, bad_rs_name, Config, env_or,
  env_parse, private_domain_of, non_empty, default_health_api_username, health_api_username_from,
  health_api_password_from, health_api_password_is_blank, data_dir_from_env, enabled_flag,
  rs_enabled, config_of, ConfigResult, bad_name, validated, with_credentials, from_env,
  health_api_credential, dataset_files, datadir_is_initialized, node_id, seed_host, seed_hosts,
  peer_hosts, seed_rank, my_seed_rank,
}

pub record MongoNode : Type 0 where
  pub name : Text
  pub host : Text
  pub mongo_port : ℕ

pub data NodeError : Type 0 where
  invalid_format invalid_port : Text → NodeError

abbrev pub Parsed : Type 0
Parsed = MongoNode ⊎ NodeError

abbrev pub node_of : Text → Text → Option ℕ → Parsed
node_of entry host none = inr (invalid_port entry)
node_of entry host (some port) =
    inl (record { name = first_piece b'.' host; host = host; mongo_port = port })

abbrev pub node_of_halves : Text → Option (Text × Text) → Parsed
node_of_halves entry none = inr (invalid_format entry)
node_of_halves entry (some (host, port)) = node_of entry host (parse_unsigned (2 ^ 16) port)

-- One entry; `splitn(2, ':')` has two parts exactly when there is a colon.
unfoldable pub parse_node : Text → Parsed
parse_node entry = node_of_halves (trim entry) (split_once b':' (trim entry))

-- `collect` into a result: the first error, or every node.
unfoldable pub collect : List Parsed → List MongoNode ⊎ NodeError
collect [] = inl []
collect (inr e ∷ rest) = inr e
collect (inl n ∷ rest) = elim (collect rest) [ inl ns ↦ inl (n ∷ ns) | inr e ↦ inr e ]

unfoldable pub parse_nodes : Text → List MongoNode ⊎ NodeError
unfolding parse_node collect
parse_nodes mongo_nodes = collect (map parse_node (split b',' mongo_nodes))

pub record StatsAuth : Type 0 where
  pub user : Text
  pub password : Text

unfoldable pub resolve_stats_auth :
    Option Text → Option Text → Option Text → Option Text → Option StatsAuth
resolve_stats_auth stats_user stats_password mongo_user mongo_password =
    Option_map
      (λ password. record {
        user = unwrap_or (or_else (non_empty stats_user) (non_empty mongo_user)) (codes "mongo");
        password = password;
      })
      (or_else (non_empty stats_password) (non_empty mongo_password))

pub record EdgeConfig : Type 0 where
  pub mongo_nodes : Text
  pub health_port : ℕ
  pub mongo_port : ℕ
  pub max_conn : Text
  pub timeout_connect : Text
  pub timeout_client : Text
  pub timeout_server : Text
  pub timeout_check : Text
  pub check_interval : Text
  pub check_fastinter : Text
  pub check_downinter : Text
  pub stats_auth : Option StatsAuth

-- `none` when MONGO_NODES is missing.
unfoldable pub edge_from_env : Env → Option EdgeConfig
unfolding resolve_stats_auth
edge_from_env env =
    Option_map
      (λ nodes. record {
        mongo_nodes = nodes;
        health_port = env_parse 16 env (codes "HEALTH_CHECK_PORT") 8080;
        mongo_port = env_parse 16 env (codes "MONGO_PORT") 27017;
        max_conn = env_or env (codes "HAPROXY_MAX_CONN") (codes "10000");
        timeout_connect = env_or env (codes "HAPROXY_TIMEOUT_CONNECT") (codes "10s");
        timeout_client = env_or env (codes "HAPROXY_TIMEOUT_CLIENT") (codes "1d");
        timeout_server = env_or env (codes "HAPROXY_TIMEOUT_SERVER") (codes "1d");
        timeout_check = env_or env (codes "HAPROXY_TIMEOUT_CHECK") (codes "3s");
        check_interval = env_or env (codes "HAPROXY_CHECK_INTERVAL") (codes "3s");
        check_fastinter = env_or env (codes "HAPROXY_CHECK_FASTINTER") (codes "500ms");
        check_downinter = env_or env (codes "HAPROXY_CHECK_DOWNINTER") (codes "500ms");
        stats_auth =
            resolve_stats_auth (env (codes "HAPROXY_STATS_USER"))
              (env (codes "HAPROXY_STATS_PASSWORD")) (env (codes "MONGOUSER"))
              (env (codes "MONGOPASSWORD"));
      })
      (env (codes "MONGO_NODES"))

-- A carriage return at the end.
abbrev pub strip_cr : Text → Text
strip_cr [] = []
strip_cr (c ∷ []) = if c == 13 then [] else c ∷ []
strip_cr (c ∷ d ∷ s) = c ∷ strip_cr (d ∷ s)

-- `str::lines`, from the pieces at the line feeds.
unfoldable pub lines_of : List Text → List Text
lines_of [] = []
lines_of (p ∷ []) = if is_empty p then [] else p ∷ []
lines_of (p ∷ q ∷ rest) = strip_cr p ∷ lines_of (q ∷ rest)

unfoldable pub column : ℕ → List Text → Text
column i [] = []
column zero (c ∷ cols) = c
column (suc i) (c ∷ cols) = column i cols

-- A server of the primary backend that is up.
unfoldable pub is_up_line : Text → Bool
unfolding column
is_up_line line =
    let cols = split b',' line in
    not (ltb (length cols) 18)
    && text_eq (column 0 cols) (codes "mongo_primary_backend")
    && not (text_eq (column 1 cols) (codes "BACKEND"))
    && text_eq (column 17 cols) (codes "UP")

-- The body of the stats page, `none` when the request fails.
unfoldable pub check_primary_health : Option Text → Option Bool
unfolding lines_of is_up_line
check_primary_health body = Option_map (λ text. any is_up_line (lines_of (split b'\n' text))) body

-- What `try_wait` answers of haproxy.
pub data Proxy : Type 0 where
  proxy_runs wait_failed : Proxy
  proxy_exited : Option ℕ → Proxy

pub data Report : Type 0 where
  no_primary : Report
  exit : ℕ → Report

-- The child and the stats page at one turn.
abbrev pub Tick : Type 0
Tick = Proxy × Option Text

abbrev pub judged : Bool → Option Bool → Bool × List Report
judged alerted (some true) = (false, [])
judged alerted (some false) = (true, if alerted then [] else no_primary ∷ [])
judged alerted none = (alerted, [])

-- The turns, from the flag: what is reported, until the process exits.
unfoldable pub monitor : Bool → List Tick → List Report
unfolding check_primary_health
monitor alerted [] = []
monitor alerted ((proxy, body) ∷ rest) = elim proxy [
  | proxy_exited code ↦ exit (unwrap_or code 1) ∷ []
  | wait_failed ↦ exit 1 ∷ []
  | proxy_runs ↦
      let (flag, reports) = judged alerted (check_primary_health body) in
      reports ++ monitor flag rest
]
