-- ===== src/HealthServer.antt =====
-- mongo-wrapper/src/health_server.rs: what the endpoints answer.
pub mod Fence
pub mod Failures
mod Tests
use mongo_ha.Base.{
  ltb, leb, ◌==◌, if◌then◌else◌, ltb→lt, lt→ltb, leb→le, le→leb, leb→gt, ltb→ge, ==_iff, tests,
  Bool-cases, Option-cases, and_true, or_false, is_some, is_some_and, or_else, unwrap_or,
  Option_filter, and_then, Option_map, if_elim, All, Any, In, length, any, all, find, filter, count,
  position, length-append, count-le-length, find-eq-some, find-eq-none, any-eq-false, any-eq-true,
  all-eq-true, find_map, filter_map, All-append, All-In, Any-In, In-filter, In-map, List-cases,
  filter_map-append, filter_map-filter, filter-append, All-of_In, filter_map-In, In-filter_map,
  In-append_left, In-append_right, In-append, In-guard, guard-In, append_nil, append_assoc,
  Duration, Instant, nanos_per_sec, from_secs, from_millis, as_secs, duration_since, ℕ, zero, suc,
  ◌+◌, ◌-◌, ◌*◌, ◌/◌, ◌%◌, ◌^◌, ◌≤◌, ◌<◌, min, max, String, ◌≡◌, refl, sym, ap, ◌∙◌, ◌≢◌, ◌↔◌, ◌⊎◌,
  inl, inr, Bool, true, false, not, ◌&&◌, ◌||◌, Option, none, some, List, [], ◌∷◌, ◌++◌, map, arith,
}
use mongo_ha.Text.{Text, codes, text_eq}
use mongo_ha.Text.Case.{eq_ignore_ascii_case}
use mongo_ha.Int64.{ℤ, eq_ℤ}
use mongo_ha.Peers.{RsState}
use mongo_ha.Mongo.{
  not_yet_initialized, invalid_replica_set_config, already_initialized, new_config_incompatible,
  configuration_in_progress, not_writable_primary, exceeded_time_limit, unauthorized,
  authentication_failed, MongoError, timed_out, authentication, command, server_selection, io,
  pool_cleared, other_error, Reply, ok, err, command_error_code, Hello, replication_enabled,
  RsMember, Active, RsStatus, not_initialized, not_a_member, active, state_primary, is_reachable,
  has_majority,
}

pub data StatusCode : Type 0 where
  status_ok unauthorized_status not_found service_unavailable : StatusCode

-- How the probe of a root credential ended.
pub data RootProbe : Type 0 where
  root refused : RootProbe
  not_ready : Text → RootProbe

unfoldable pub keyfile_reply : Text → RootProbe → StatusCode × Text
keyfile_reply keyfile root = (status_ok, keyfile)
keyfile_reply keyfile refused = (unauthorized_status, codes "authentication failed")
keyfile_reply keyfile (not_ready why) = (service_unavailable, codes "mongod not ready")

-- `/rs/keyfile`: the loaded key or the one of the boot, whether a probe slot was got, and what
-- mongod says of the credential.
abbrev pub probe_of : Text → Text → RootProbe → RootProbe
probe_of username root_username answer = if text_eq username root_username then answer else refused

unfoldable pub rs_keyfile :
    Option Text → Option Text → Bool → Text → Text → RootProbe → StatusCode × Text
unfolding keyfile_reply
rs_keyfile loaded boot slot username root_username answer = elim (or_else loaded boot) [
  | none ↦ (not_found, codes "not a replica set member")
  | some keyfile ↦ keyfile_reply keyfile (
      if slot
      then probe_of username root_username answer
      else not_ready (codes "probe slots closed"))
]

unfoldable pub health : Reply (Unit {0}) → StatusCode × Text
health (ok u) = (status_ok, codes "ok")
health (err e) = (service_unavailable, codes "mongod not answering")

abbrev pub role_failure_log_every : Duration
role_failure_log_every = from_secs 60

pub record FailureLog : Type 0 where
  pub failing_since : Option Instant
  pub last_logged : Option Instant

abbrev pub new_log : FailureLog
new_log = record { failing_since = none; last_logged = none }

unfoldable pub on_failure : Instant → FailureLog → FailureLog × Option Duration
on_failure now l =
    let since = unwrap_or l.failing_since now in
    if is_some_and l.last_logged (λ t. ltb (duration_since now t) role_failure_log_every)
    then (record { failing_since = some since; last_logged = l.last_logged }, none)
    else (
      record { failing_since = some since; last_logged = some now },
      some (duration_since now since),
    )

unfoldable pub on_success : Instant → FailureLog → FailureLog × Option Duration
on_success now l = (
  record { failing_since = none; last_logged = none },
  Option_map (λ t. duration_since now t) l.failing_since,
)

pub data RoleVerdict : Type 0 where
  primary : RoleVerdict
  fenced replica unavailable : Text → RoleVerdict

-- The JSON body.
pub record Body : Type 0 where
  pub role : Text
  pub state : Option Text
  pub ready : Option Bool
  pub reason : Option Text

unfoldable pub role_reply : RoleVerdict → StatusCode × Body
role_reply primary =
    (status_ok, record { role = codes "primary"; state = none; ready = none; reason = none })
role_reply (fenced s) = (
  service_unavailable,
  record { role = codes "fenced"; state = some s; ready = some false; reason = none },
)
role_reply (replica s) = (
  service_unavailable,
  record {
    role = codes "replica";
    state = some s;
    ready = some (text_eq s (codes "SECONDARY"));
    reason = none;
  },
)
role_reply (unavailable why) = (
  service_unavailable,
  record { role = codes "unknown"; state = none; ready = none; reason = some why },
)

unfoldable pub own_member_state : Reply RsStatus → Reply Text
own_member_state (ok (active a)) = ok a.my_state_str
own_member_state (ok not_initialized) = ok (codes "STARTUP")
own_member_state (ok not_a_member) = ok (codes "REMOVED")
own_member_state (err e) = err e

abbrev pub as_replica : Reply Text → Reply RoleVerdict
as_replica (ok s) = ok (replica s)
as_replica (err e) = err e

abbrev pub fence_of : Reply RsStatus → Reply RoleVerdict
fence_of (ok (active a)) = ok (if has_majority a.members then primary else fenced (codes "PRIMARY"))
fence_of (ok _) = ok (fenced (codes "PRIMARY"))
fence_of (err e) = err e

-- The reads of `/role` on a set member.
unfoldable pub role_verdict : Reply Hello → Reply RsStatus → Reply RoleVerdict
unfolding own_member_state
role_verdict (err e) status = err e
role_verdict (ok h) status =
    if h.is_writable_primary then fence_of status else as_replica (own_member_state status)

abbrev pub reply_of : Reply RoleVerdict → StatusCode × Body
reply_of (ok v) = role_reply v
reply_of (err e) = role_reply (unavailable (codes "state unavailable"))

abbrev pub noted_role : Instant → FailureLog → Reply RoleVerdict → FailureLog × Option Duration
noted_role now l (ok v) = on_success now l
noted_role now l (err e) = on_failure now l

-- `/role` of a set member: the failure log and what it logs, and the answer.
unfoldable pub role :
    Instant
    → Reply Hello
    → Reply RsStatus
    → FailureLog
    → (FailureLog × Option Duration) × (StatusCode × Body)
unfolding role_verdict role_reply on_failure on_success
role now hello status l =
    (noted_role now l (role_verdict hello status), reply_of (role_verdict hello status))

-- `/role` of a standalone node.
unfoldable pub standalone_role : Reply (Unit {0}) → StatusCode × Body
unfolding role_reply
standalone_role (ok u) = role_reply primary
standalone_role (err e) = role_reply (unavailable (codes "mongod not answering"))

-- `/rs/state`
pub data StateReply : Type 0 where
  answered : RsState → StateReply
  refused_with : Text → StateReply

abbrev pub state_reply : Reply RsState → StateReply
state_reply (ok s) = answered s
state_reply (err e) = refused_with (codes "state unavailable")

unfoldable pub rs_state : Bool → Reply Hello → Reply RsState → StateReply
unfolding replication_enabled
rs_state standalone (err e) local = refused_with (codes "mongod not answering")
rs_state standalone (ok h) local =
    if not standalone && not (replication_enabled h)
    then refused_with (codes "mongod initializing")
    else state_reply local

-- `/switchover`: whom it steps down and whom it freezes first.
unfoldable pub handoff_from : Hello → List RsMember → Option Text
handoff_from h members =
    or_else (Option_map (λ m. m.host) (find (λ m. eq_ℤ m.state state_primary) members)) h.primary

unfoldable pub frozen_members : Text → Text → List RsMember → List Text
frozen_members me primary_host members =
    map (λ m. m.host)
      (filter (λ m. not (eq_ignore_ascii_case m.host me))
        (filter (λ m. not m.is_self && not (eq_ignore_ascii_case m.host primary_host)) members))

abbrev pub healthy_run_threshold : Duration
healthy_run_threshold = from_secs 60

-- After an attempt of the health server that ran for this long: whether the incident is alerted, and
-- whether it is reported now. A run of a minute closes the incident before.
unfoldable pub supervised : Duration → Bool → Bool × Bool
supervised ran_for alerted = (true, not (alerted && ltb ran_for healthy_run_threshold))
