-- ===== src/Mongo.antt =====
-- mongo-wrapper/src/mongo.rs: what the wrapper reads from mongod and writes to it.
pub mod Config
pub mod Recovery
pub mod Majority
pub mod Address
pub mod Status
pub mod Leftovers
mod Tests
use mongo_ha.Base.{
  ltb, leb, ◌==◌, if◌then◌else◌, ltb→lt, lt→ltb, leb→le, le→leb, leb→gt, ltb→ge, ==_iff, tests,
  Bool-cases, Option-cases, and_true, or_false, is_some, is_some_and, or_else, unwrap_or,
  Option_filter, and_then, Option_map, All, Any, In, length, any, all, find, filter, count,
  position, length-append, count-le-length, find-eq-some, find-eq-none, any-eq-false, any-eq-true,
  all-eq-true, find_map, filter_map, All-append, All-In, Any-In, In-filter, In-map, Duration,
  Instant, nanos_per_sec, from_secs, from_millis, as_secs, duration_since, ℕ, zero, suc, ◌+◌, ◌-◌,
  ◌*◌, ◌/◌, ◌%◌, ◌^◌, ◌≤◌, ◌<◌, min, max, String, ◌≡◌, refl, sym, ap, ◌∙◌, ◌≢◌, ◌↔◌, ◌⊎◌, inl, inr,
  Bool, true, false, not, ◌&&◌, ◌||◌, Option, none, some, List, [], ◌∷◌, ◌++◌, map, arith,
}
use mongo_ha.Text.{Text}
use mongo_ha.Int64.{ℤ, pos}

-- Server error codes.
abbrev pub not_yet_initialized : ℕ
not_yet_initialized = 94

abbrev pub invalid_replica_set_config : ℕ
invalid_replica_set_config = 93

abbrev pub already_initialized : ℕ
already_initialized = 23

abbrev pub new_config_incompatible : ℕ
new_config_incompatible = 103

abbrev pub configuration_in_progress : ℕ
configuration_in_progress = 109

abbrev pub not_writable_primary : ℕ
not_writable_primary = 10107

abbrev pub exceeded_time_limit : ℕ
exceeded_time_limit = 262

abbrev pub unauthorized : ℕ
unauthorized = 13

abbrev pub authentication_failed : ℕ
authentication_failed = 18

-- An error of a command on mongod, by what the wrapper tells apart (`command_error_code`, `classify`).
pub data MongoError : Type 0 where
  timed_out : MongoError
  authentication : MongoError
  command : ℕ → MongoError
  server_selection io pool_cleared : MongoError
  other_error : MongoError

-- `anyhow::Result`
pub data Reply {ℓ} (A : Type ℓ) : Type ℓ where
  ok : A → Reply A
  err : MongoError → Reply A

unfoldable pub command_error_code : MongoError → Option ℕ
command_error_code (command code) = some code
command_error_code _ = none

pub record Hello : Type 0 where
  pub is_writable_primary : Bool
  pub secondary : Bool
  pub set_name : Option Text
  pub isreplicaset : Bool
  pub primary : Option Text

unfoldable pub replication_enabled : Hello → Bool
replication_enabled h = is_some h.set_name || h.isreplicaset

pub record RsMember : Type 0 where
  pub id : ℤ
  pub host : Text
  pub state : ℤ
  pub state_str : Text
  pub healthy : Bool
  pub is_self : Bool
  pub optime_secs : Option ℕ

pub record Active : Type 0 where
  pub set_name : Text
  pub my_state : ℤ
  pub my_state_str : Text
  pub members : List RsMember
  pub voting_members : Option ℕ

pub data RsStatus : Type 0 where
  not_initialized not_a_member : RsStatus
  active : Active → RsStatus

-- mongod's state codes.
abbrev pub state_primary : ℤ
state_primary = pos 1

abbrev pub is_reachable : RsMember → Bool
is_reachable m = m.healthy || m.is_self

unfoldable pub has_majority : List RsMember → Bool
has_majority members =
    if length members == 0 then false else ltb (length members) (count is_reachable members * 2)
