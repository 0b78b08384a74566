-- ===== src/Mongo/Recovery.antt =====
-- mongo-wrapper/src/mongo.rs: when the pooled client is rebuilt, and how a command recovers on it.
pub mod Throttle
pub mod Pooled
use mongo_ha.Base.{
  ltb, leb, ◌==◌, if◌then◌else◌, ltb→lt, lt→ltb, leb→le, le→leb, leb→gt, ltb→ge, ==_iff, tests,
  Bool-cases, Option-cases, and_true, or_false, is_some, is_some_and, or_else, unwrap_or,
  Option_filter, and_then, Option_map, All, Any, In, length, any, all, find, filter, count,
  position, length-append, count-le-length, find-eq-some, find-eq-none, any-eq-false, any-eq-true,
  all-eq-true, find_map, filter_map, All-append, All-In, Any-In, In-filter, In-map, List-cases,
  filter_map-append, filter_map-filter, filter-append, All-of_In, filter_map-In, In-filter_map,
  Duration, Instant, nanos_per_sec, from_secs, from_millis, as_secs, duration_since, ℕ, zero, suc,
  ◌+◌, ◌-◌, ◌*◌, ◌/◌, ◌%◌, ◌^◌, ◌≤◌, ◌<◌, min, max, String, ◌≡◌, refl, sym, ap, ◌∙◌, ◌≢◌, ◌↔◌, ◌⊎◌,
  inl, inr, Bool, true, false, not, ◌&&◌, ◌||◌, Option, none, some, List, [], ◌∷◌, ◌++◌, map, arith,
}
use mongo_ha.Text.{Text, codes, text_eq}
use mongo_ha.Mongo.{
  not_yet_initialized, invalid_replica_set_config, already_initialized, new_config_incompatible,
  configuration_in_progress, not_writable_primary, exceeded_time_limit, unauthorized,
  authentication_failed, MongoError, timed_out, authentication, command, server_selection, io,
  pool_cleared, other_error, Reply, ok, err, command_error_code, Hello, replication_enabled,
  RsMember, Active, RsStatus, not_initialized, not_a_member, active, state_primary, is_reachable,
  has_majority,
}

-- What a failed command says about the client.
pub data Failure : Type 0 where
  auth transport verdict : Failure

unfoldable pub classify : MongoError → Failure
classify timed_out = transport
classify authentication = auth
classify (command code) =
    if code == unauthorized || code == authentication_failed then auth else verdict
classify server_selection = transport
classify io = transport
classify pool_cleared = transport
classify other_error = verdict

abbrev pub rebuild_backoff_min : Duration
rebuild_backoff_min = from_secs 30

abbrev pub rebuild_backoff_max : Duration
rebuild_backoff_max = from_secs 300

abbrev pub transport_failures_before_rebuild : ℕ
transport_failures_before_rebuild = 5

abbrev pub same_failure : Failure → Failure → Bool
same_failure auth auth = true
same_failure transport transport = true
same_failure verdict verdict = true
same_failure _ _ = false

pub record RecoveryPolicy : Type 0 where
  pub transport_failures : ℕ
  pub backoff : Duration
  -- The failure kind the last rebuild was for, and when the next one for it may happen.
  pub pending : Option (Failure × Instant)

abbrev pub new_policy : RecoveryPolicy
new_policy = record { transport_failures = 0; backoff = rebuild_backoff_min; pending = none }

abbrev pub still_pending : Bool → Option (Failure × Instant) → Option (Failure × Instant)
still_pending authenticated none = none
still_pending authenticated (some (transport, t)) = none
still_pending true (some (auth, t)) = none
still_pending true (some (verdict, t)) = none
still_pending false (some (auth, t)) = some (auth, t)
still_pending false (some (verdict, t)) = some (verdict, t)

unfoldable pub proven : Bool → RecoveryPolicy → RecoveryPolicy
proven authenticated p =
    let pending = still_pending authenticated p.pending in
    record {
      transport_failures = 0;
      backoff = if is_some pending then p.backoff else rebuild_backoff_min;
      pending = pending;
    }

unfoldable pub on_success : Bool → RecoveryPolicy → RecoveryPolicy
unfolding proven
on_success authenticated p = proven authenticated p

-- The match on `pending` and what follows it.
unfoldable pub arm :
    Failure → Instant → RecoveryPolicy → Option (Failure × Instant) → RecoveryPolicy × Bool
arm failure now p none = (
  record {
    transport_failures = 0;
    backoff = rebuild_backoff_min;
    pending = some (failure, now + rebuild_backoff_min);
  },
  true,
)
arm failure now p (some (kind, until)) =
    if same_failure kind failure && ltb now until
    then (p, false)
    else (let backoff =
          if same_failure kind failure
          then min (p.backoff * 2) rebuild_backoff_max
          else rebuild_backoff_min in
        (
          record {
            transport_failures = 0;
            backoff = backoff;
            pending = some (failure, now + backoff);
          },
          true,
        ))

-- Whether the failure should rebuild the client now. The counter is a `u32` that is reset by every
-- rebuild and every answer.
unfoldable pub on_failure : Failure → Bool → Instant → RecoveryPolicy → RecoveryPolicy × Bool
unfolding proven arm
on_failure verdict authenticated now p = (proven authenticated p, false)
on_failure transport authenticated now p =
    let counted = record p { transport_failures = p.transport_failures + 1 } in
    if ltb counted.transport_failures transport_failures_before_rebuild
    then (counted, false)
    else arm transport now counted counted.pending
on_failure auth authenticated now p = arm auth now p p.pending

-- Commands that mongod answers without an authenticated session.
unfoldable pub needs_auth : Text → Bool
unfolding text_eq
needs_auth name = not (
    text_eq name (codes "hello")
    || text_eq name (codes "ping")
    || text_eq name (codes "isMaster")
    || text_eq name (codes "ismaster"))

-- The pooled client, as the password that it authenticates with, and how often it was replaced (u64).
pub record Pool : Type 0 where
  pub client : Text
  pub generation : ℕ

-- The handle's shared state.
pub record Mongo : Type 0 where
  pub password : Text
  pub pool : Pool
  pub recovery : RecoveryPolicy

unfoldable pub swap_password : Text → Mongo → Mongo
swap_password password m = record m {
  password = password;
  pool = record { client = password; generation = (m.pool.generation + 1) % 2 ^ 64 };
}

unfoldable pub rebuild : ℕ → Mongo → Mongo
rebuild observed m =
    if m.pool.generation == observed
    then record m {
      pool = record { client = m.password; generation = (m.pool.generation + 1) % 2 ^ 64 };
    }
    else m

abbrev pub note_success : Bool → Mongo → Mongo
note_success authenticated m = record m { recovery = on_success authenticated m.recovery }

abbrev pub note_failure : Failure → Bool → Instant → Mongo → Mongo × Bool
note_failure failure authenticated now m =
    let (recovery, rebuilds) = on_failure failure authenticated now m.recovery in
    (record m { recovery = recovery }, rebuilds)

-- The second attempt, on the rebuilt client: a refusal that survives it is returned as it is.
unfoldable pub retried {ℓ} : {A : Type ℓ} → Bool → Instant → Mongo → Reply A → Mongo × Reply A
retried authenticated later fresh (ok v) = (note_success authenticated fresh, ok v)
retried authenticated later fresh (err e) =
    ((note_failure (classify e) authenticated later fresh).0, err e)

-- What follows a failure that the policy answers with a rebuild.
unfoldable pub rebuilt {ℓ} :
    {A : Type ℓ}
    → Bool
    → (Pool → Reply A)
    → Instant
    → Mongo
    → MongoError
    → Failure
    → Mongo × Reply A
rebuilt authenticated op later fresh e auth = retried authenticated later fresh (op fresh.pool)
rebuilt authenticated op later fresh e transport = (fresh, err e)
rebuilt authenticated op later fresh e verdict = (fresh, err e)

-- What follows the first attempt.
unfoldable pub attempted {ℓ} :
    {A : Type ℓ}
    → Bool
    → (Pool → Reply A)
    → (Mongo → Mongo)
    → Instant
    → Instant
    → Mongo
    → Reply A
    → Mongo × Reply A
attempted authenticated op others now later m (ok v) = (note_success authenticated m, ok v)
attempted authenticated op others now later m (err e) =
    let (noted, rebuilds) = note_failure (classify e) authenticated now m in
    if rebuilds
    then rebuilt authenticated op later (rebuild m.pool.generation (others noted)) e (classify e)
    else (noted, err e)

-- One command on the pooled client. `op` answers for the client that it is given; `others` is what
-- concurrent callers do to the handle between the failure and the rebuild; the clock reads `now` at
-- the first failure and `later` at the second.
unfoldable pub recovering {ℓ} :
    {A : Type ℓ}
    → Bool
    → (Pool → Reply A)
    → (Mongo → Mongo)
    → Instant
    → Instant
    → Mongo
    → Mongo × Reply A
recovering authenticated op others now later m =
    attempted authenticated op others now later m (op m.pool)
