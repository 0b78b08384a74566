-- ===== src/Credentials.antt =====
-- mongo-wrapper/src/credentials.rs: the phases of a credential rotation on one node.
pub mod Phases
pub mod Adopt
pub mod Request
mod Tests
use mongo_ha.Base.{
  ltb, leb, ◌==◌, if◌then◌else◌, ltb→lt, lt→ltb, leb→le, le→leb, leb→gt, ltb→ge, ==_iff, tests,
  Bool-cases, Option-cases, and_true, or_false, is_some, is_some_and, or_else, unwrap_or,
  Option_filter, and_then, Option_map, if_elim, All, Any, In, length, any, all, find, filter, count,
  position, length-append, count-le-length, find-eq-some, find-eq-none, any-eq-false, any-eq-true,
  all-eq-true, find_map, filter_map, All-append, All-In, Any-In, In-filter, In-map, List-cases,
  filter_map-append, filter_map-filter, filter-append, All-of_In, filter_map-In, In-filter_map,
  In-append_left, In-append_right, In-append, In-guard, guard-In, append_nil, append_assoc,
  Duration, Instant, nanos_per_sec, from_secs, from_millis, as_secs, duration_since, ℕ, zero, suc,
  ◌+◌, ◌-◌, ◌*◌, ◌/◌, ◌%◌, ◌^◌, ◌≤◌, ◌<◌, min, max, String, ◌≡◌, refl, sym, ap, ◌∙◌, ◌≢◌, ◌↔◌, ◌⊎◌,
  inl, inr, Bool, true, false, not, ◌&&◌, ◌||◌, Option, none, some, List, [], ◌∷◌, ◌++◌, map, arith,
}
use mongo_ha.Text.{Text, codes, text_eq}
use mongo_ha.Maps.{contains, add}
use mongo_ha.Int64.{ℤ, pos, eq_ℤ}
use mongo_ha.DnsProbe.{NameVerdict, gone, exists_or_unknown}
use mongo_ha.Mongo.{
  not_yet_initialized, invalid_replica_set_config, already_initialized, new_config_incompatible,
  configuration_in_progress, not_writable_primary, exceeded_time_limit, unauthorized,
  authentication_failed, MongoError, timed_out, authentication, command, server_selection, io,
  pool_cleared, other_error, Reply, ok, err, command_error_code, Hello, replication_enabled,
  RsMember, Active, RsStatus, not_initialized, not_a_member, active, state_primary, is_reachable,
  has_majority,
}
use mongo_ha.Mongo.Address.{split_host_port}
use mongo_ha.AuthPin.{
  AuthPin, PasswordProbe, works, access_denied, is_works, same_option, pinned_keyfile,
  write_password_pin,
}

-- PRIMARY or SECONDARY.
abbrev pub is_serving : RsMember → Bool
is_serving m = m.healthy && (eq_ℤ m.state (pos 1) || eq_ℤ m.state (pos 2))

abbrev pub present_members : List Text → List RsMember → List RsMember
present_members gone_hosts members = filter (λ m. not (contains m.host gone_hosts)) members

unfoldable pub healthy_set : List Text → RsStatus → Bool
healthy_set gone_hosts (active a) =
    let present = present_members gone_hosts a.members in
    not (length present == 0)
    && count (λ m. eq_ℤ m.state (pos 1)) present == 1
    && all is_serving present
    && has_majority a.members
healthy_set gone_hosts not_initialized = false
healthy_set gone_hosts not_a_member = false

abbrev pub is_gone : NameVerdict → Bool
is_gone gone = true
is_gone exists_or_unknown = false

-- The unreachable members whose name is gone.
abbrev pub gone_of : (Text → NameVerdict) → List RsMember → List Text
gone_of probe [] = []
gone_of probe (m ∷ ms) =
    let rest = gone_of probe ms in
    if not m.healthy && not m.is_self && is_gone (probe (split_host_port m.host).0)
    then add m.host rest
    else rest

unfoldable pub gone_members : (Text → NameVerdict) → RsStatus → List Text
gone_members probe (active a) = gone_of probe a.members
gone_members probe _ = []

-- `set_ready`; `unwrap_or(false)` and `ensure!` both take an error for not ready.
unfoldable pub set_ready : (Text → NameVerdict) → Reply RsStatus → Bool
unfolding healthy_set gone_members
set_ready probe (ok s) = healthy_set (gone_members probe s) s
set_ready probe (err e) = false

pub data Operation : Type 0 where
  preflight prepare database member verify key_status key_prepare key_commit : Operation

pub record Rotation : Type 0 where
  pub operation : Operation
  pub new_password : Text
  pub current_password : Text

-- The node: the pooled client's password, the keyfile its mongod runs with, the pin and the
-- pending rotation on the volume, and whether mongod is asked to restart.
pub record Node : Type 0 where
  pub pool : Text
  pub loaded : Option Text
  pub disk : Option AuthPin
  pub pending : Option Rotation
  pub restart : Bool

-- What mongod and the volume answer during a phase.
pub record Answers : Type 0 where
  pub probe : Text → PasswordProbe
  pub ping : Reply (Unit {0})
  pub hello : Reply Hello
  pub update_user : Reply (Unit {0})
  pub ready : Bool
  pub writable : Bool
  pub removable : Bool
  -- Whether mongod runs with the target key, in a set that is ready, before the deadline.
  pub settled : Bool

abbrev pub is_ok : {A : Type 0} → Reply A → Bool
is_ok (ok v) = true
is_ok (err e) = false

abbrev pub is_primary : Reply Hello → Bool
is_primary (ok h) = h.is_writable_primary
is_primary (err e) = false

abbrev pub is_denied : PasswordProbe → Bool
is_denied access_denied = true
is_denied works = false
is_denied _ = false

-- The node after a phase, and whether the phase succeeded.
abbrev pub ensure : Bool → Node → Node × Bool → Node × Bool
ensure test n rest = if test then rest else (n, false)

-- `derive` is the hash of a password, `pair` the JSON array of two keys.
module _ (derive : Text → Text) (pair : Text → Text → Text) where
  unfoldable pub target_keyfile : Rotation → Bool → Text
  target_keyfile r overlap =
      if overlap && not (text_eq (derive r.current_password) (derive r.new_password))
      then pair (derive r.current_password) (derive r.new_password)
      else derive r.new_password

  abbrev pub runs_target : Rotation → Bool → Node → Bool
  runs_target r overlap n = same_option n.loaded (some (target_keyfile r overlap))

  unfoldable pub apply_preflight : Answers → Rotation → Node → Node × Bool
  unfolding target_keyfile
  apply_preflight a r n = (
    n,
    runs_target r false n
        && is_works (a.probe r.new_password)
        && is_ok a.ping
        && a.ready
        && is_ok a.hello,
  )

  unfoldable pub apply_prepare : Answers → Rotation → Node → Node × Bool
  apply_prepare a r n = ensure a.writable n (record n { pending = some r }, true)

  abbrev pub swapped : Text → Node → Node
  swapped password n = record n { pool = password }

  unfoldable pub apply_database : Answers → Rotation → Node → Node × Bool
  apply_database a r n =
      if is_works (a.probe r.new_password)
      then (swapped r.new_password n, is_ok a.hello)
      else ensure (is_works (a.probe r.current_password)) n (
          ensure (is_primary a.hello && is_ok a.update_user) (swapped r.current_password n)
            (swapped r.new_password n, is_ok a.hello))

  unfoldable pub apply_member : Answers → Rotation → Node → Node × Bool
  unfolding write_password_pin
  apply_member a r n = ensure (is_works (a.probe r.new_password)) n (
      ensure a.writable (swapped r.new_password n) (
        record (swapped r.new_password n) {
          disk = some (write_password_pin r.new_password n.loaded n.disk);
        },
        is_ok a.hello,
      ))

  abbrev pub intended : Rotation → Bool → Node → Node
  intended r overlap n = record n {
    disk = some (record { password = r.new_password; keyfile = some (target_keyfile r overlap) });
    restart = true;
  }

  -- mongod is restarted with the pinned key, when it is in time.
  abbrev pub restarted : Answers → Rotation → Bool → Node → Node
  restarted a r overlap n =
      if a.settled
      then record n { loaded = some (target_keyfile r overlap); restart = false }
      else n

  -- The key phases. The pin is the durable intent of the restart.
  unfoldable pub apply_key : Answers → Rotation → Bool → Node → Node × Bool
  unfolding target_keyfile
  apply_key a r overlap n = ensure (is_works (a.probe r.new_password)) n (
      if runs_target r overlap n
      then (n, a.settled && is_ok a.hello)
      else ensure (a.ready && a.writable) n
          (restarted a r overlap (intended r overlap n), a.settled && is_ok a.hello))

  abbrev pub pin_matches : Rotation → Option AuthPin → Bool
  pin_matches r none = false
  pin_matches r (some p) = text_eq p.password r.new_password

  -- The checks of the last phase.
  unfoldable pub verified : Answers → Rotation → Node → Bool
  unfolding target_keyfile
  verified a r n =
      runs_target r false n
      && same_option (pinned_keyfile n.disk) (some (target_keyfile r false))
      && a.ready
      && (text_eq r.current_password r.new_password || is_denied (a.probe r.current_password))
      && is_works (a.probe r.new_password)
      && pin_matches r n.disk
      && is_ok a.ping

  unfoldable pub apply_verify : Answers → Rotation → Node → Node × Bool
  unfolding verified
  apply_verify a r n =
      ensure (verified a r n) n (ensure a.removable n (record n { pending = none }, is_ok a.hello))

  unfoldable pub apply_operation : Operation → Answers → Rotation → Node → Node × Bool
  unfolding apply_preflight apply_prepare apply_database apply_member apply_key apply_verify
  apply_operation preflight a r n = apply_preflight a r n
  apply_operation prepare a r n = apply_prepare a r n
  apply_operation database a r n = apply_database a r n
  apply_operation member a r n = apply_member a r n
  apply_operation verify a r n = apply_verify a r n
  apply_operation key_status a r n = (n, a.ready && is_ok a.hello)
  apply_operation key_prepare a r n = apply_key a r true n
  apply_operation key_commit a r n = apply_key a r false n
