-- ===== src/Mongo/Leftovers.antt =====
-- mongo-wrapper/src/mongo.rs: the removal of what a replica set left on a standalone
-- (`drop_stale_replset_config`), and the verdicts of the throwaway probes.
pub mod Cleanup
mod Tests
use mongo_ha.Base.{
  ltb, leb, ◌==◌, if◌then◌else◌, ltb→lt, lt→ltb, leb→le, le→leb, leb→gt, ltb→ge, ==_iff, tests,
  Bool-cases, Option-cases, and_true, or_false, is_some, is_some_and, or_else, unwrap_or,
  Option_filter, and_then, Option_map, if_elim, All, Any, In, length, any, all, find, filter,
  position, length-append, count-le-length, find-eq-some, find-eq-none, any-eq-false, any-eq-true,
  all-eq-true, find_map, filter_map, All-append, All-In, Any-In, In-filter, In-map, List-cases,
  filter_map-append, filter_map-filter, filter-append, All-of_In, filter_map-In, In-filter_map,
  In-append_left, In-append_right, In-append, In-guard, guard-In, append_nil, append_assoc,
  Duration, Instant, nanos_per_sec, from_secs, from_millis, as_secs, duration_since, bit_xor-zero,
  bit_xor_refl, bit_or-zero, ℕ, zero, suc, ◌+◌, ◌-◌, ◌*◌, ◌/◌, ◌%◌, ◌^◌, bit_or, bit_xor, ◌≤◌, ◌<◌,
  min, max, String, ◌≡◌, refl, sym, ap, ◌∙◌, ◌≢◌, ◌↔◌, ◌⊎◌, inl, inr, Bool, true, false, not, ◌&&◌,
  ◌||◌, Option, none, some, List, [], ◌∷◌, ◌++◌, map, arith,
}
use mongo_ha.Text.{Text, codes, is_empty, text_eq, text_eq_refl, text_eq_iff, text_eq-ne}
use mongo_ha.Mongo.{
  not_yet_initialized, invalid_replica_set_config, already_initialized, new_config_incompatible,
  configuration_in_progress, not_writable_primary, exceeded_time_limit, unauthorized,
  authentication_failed, MongoError, timed_out, authentication, command, server_selection, io,
  pool_cleared, other_error, Reply, ok, err, command_error_code, Hello, replication_enabled,
  RsMember, Active, RsStatus, not_initialized, not_a_member, active, state_primary, is_reachable,
  has_majority,
}
use mongo_ha.AuthPin.{
  AuthPin, BootCredentials, PasswordProbe, works, access_denied, not_ready, pinned_keyfile,
  write_password_pin, keyfile_drifted, resolved_keyfile, resolve_boot_credentials, Resolver, Pass,
  is_works, adopt_pending, same_option, pin_eq, pin_written, judged, prove_active, env_judged,
  try_environment, resolver_pass, active_password, replay_needed,
}
use mongo_ha.HealthServer.{
  StatusCode, status_ok, unauthorized_status, not_found, service_unavailable, RootProbe, root,
  refused, not_ready, keyfile_reply, probe_of, rs_keyfile, health, role_failure_log_every,
  FailureLog, new_log, on_failure, on_success, RoleVerdict, primary, fenced, replica, unavailable,
  Body, role_reply, own_member_state, as_replica, fence_of, role_verdict, reply_of, noted_role,
  role, standalone_role, StateReply, answered, refused_with, state_reply, rs_state, handoff_from,
  frozen_members, healthy_run_threshold, supervised,
}

-- The commands, in order; the role is the temporary maintenance role.
pub data Command : Type 0 where
  create_role grant_role drop_local drop_preimages revoke_role drop_role : Command

-- What mongod answers: the size of `local.system.replset`, whether the pre-images collection is
-- there, and the replies to the commands whose reply is read.
pub record Leftovers : Type 0 where
  pub count : Reply ℕ
  pub has_preimages : Reply Bool
  pub created : Reply (Unit {0})
  pub granted : Reply (Unit {0})
  pub local_dropped : Reply (Unit {0})
  pub preimages_dropped : Reply (Unit {0})

-- An error with this code counts as success.
unfoldable pub tolerate : ℕ → Reply (Unit {0}) → Reply (Unit {0})
tolerate code (ok u) = ok u
tolerate code (err e) = if is_some_and (command_error_code e) (λ c. c == code) then ok tt else err e

-- The drops from the fresh connection: what is sent, and the verdict.
abbrev pub drop_second : Bool → Leftovers → Reply (Unit {0}) → List Command × Reply (Unit {0})
drop_second has_preimages l (err e) = ([], err e)
drop_second false l (ok u) = ([], ok u)
drop_second true l (ok u) = (drop_preimages ∷ [], tolerate 26 l.preimages_dropped)

unfoldable pub drops : ℕ → Bool → Leftovers → List Command × Reply (Unit {0})
unfolding tolerate
drops zero has_preimages l = drop_second has_preimages l (ok tt)
drops (suc n) has_preimages l =
    let (sent, verdict) = drop_second has_preimages l l.local_dropped in
    (drop_local ∷ sent, verdict)

abbrev pub as_dropped : Reply (Unit {0}) → Reply Bool
as_dropped (ok u) = ok true
as_dropped (err e) = err e

abbrev pub after_grant : ℕ → Bool → Leftovers → Reply (Unit {0}) → Reply Bool × List Command
after_grant count has_preimages l (err e) = (err e, create_role ∷ grant_role ∷ [])
after_grant count has_preimages l (ok u) =
    let (sent, verdict) = drops count has_preimages l in
    (as_dropped verdict, create_role ∷ grant_role ∷ (sent ++ revoke_role ∷ drop_role ∷ []))

abbrev pub after_create : ℕ → Bool → Leftovers → Reply (Unit {0}) → Reply Bool × List Command
after_create count has_preimages l (err e) = (err e, create_role ∷ [])
after_create count has_preimages l (ok u) = after_grant count has_preimages l l.granted

abbrev pub on_leftovers : Leftovers → Reply ℕ → Reply Bool → Reply Bool × List Command
on_leftovers l (err e) has_preimages = (err e, [])
on_leftovers l (ok count) (err e) = (err e, [])
on_leftovers l (ok count) (ok has_preimages) =
    if count == 0 && not has_preimages
    then (ok false, [])
    else after_create count has_preimages l (tolerate 51002 l.created)

unfoldable pub drop_stale_replset_config : Leftovers → Reply Bool × List Command
unfolding drops tolerate
drop_stale_replset_config l = on_leftovers l l.count l.has_preimages

-- The reply of a probe's one command; a timeout is an error that is no verdict.
abbrev pub denies : MongoError → Bool
denies authentication = true
denies (command code) = code == 18
denies timed_out = false
denies server_selection = false
denies io = false
denies pool_cleared = false
denies other_error = false

unfoldable pub probe_password : Reply (Unit {0}) → PasswordProbe
probe_password (ok u) = works
probe_password (err e) = if denies e then access_denied else not_ready

-- An entry of the two lists of a `connectionStatus` reply: the named field and `db`, where they are
-- strings.
pub record AuthInfo : Type 0 where
  pub users : Option (List (Option Text × Option Text))
  pub roles : Option (List (Option Text × Option Text))

abbrev pub is_text : Text → Option Text → Bool
is_text value o = is_some_and o (λ v. text_eq v value)

unfoldable pub has_admin_entry : Option (List (Option Text × Option Text)) → Text → Bool
has_admin_entry entries value =
    unwrap_or
      (Option_map (any (λ (field, db). is_text value field && is_text (codes "admin") db)) entries)
      false

-- `none` when the reply has no `authInfo`.
unfoldable pub authenticated_as_root : Option AuthInfo → Text → Bool
unfolding has_admin_entry
authenticated_as_root reply username =
    is_some_and reply
      (λ info. has_admin_entry info.users username && has_admin_entry info.roles (codes "root"))

-- The text of a probe that reached no verdict; `display` prints an error of the driver.
abbrev pub not_ready_text : (MongoError → Text) → MongoError → Text
not_ready_text display timed_out = codes "probe timed out"
not_ready_text display e = display e

-- The verdict of the root probe on the reply to `connectionStatus`.
unfoldable pub probe_root : (MongoError → Text) → Reply (Option AuthInfo) → Text → RootProbe
unfolding authenticated_as_root
probe_root display (ok reply) username =
    if authenticated_as_root reply username then root else refused
probe_root display (err e) username =
    if denies e then refused else not_ready (not_ready_text display e)
