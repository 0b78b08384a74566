-- ===== src/Rs/State.antt =====
-- mongo-wrapper/src/rs.rs: `local_rs_state`, what this node answers to its peers, and
-- `wait_for_final_mongod`.
use mongo_ha.Base.{
  Bool-cases, and_then, Option_map, length, find, count, Duration, as_secs, ℕ, ◌≡◌, refl, ◌≢◌, ◌⊎◌,
  inl, inr, Bool, false, not, ◌&&◌, Option, none, some, List, [], map, arith,
}
use mongo_ha.Text.{Text, codes}
use mongo_ha.Int64.{ℤ, eq_ℤ}
use mongo_ha.Bson.{View, int32, int64, Documents}
use mongo_ha.Mongo.{
  Reply, ok, err, Hello, replication_enabled, RsMember, Active, RsStatus, not_initialized,
  not_a_member, active, state_primary, is_reachable,
}
use mongo_ha.Peers.{RsState, state}
use mongo_ha.Rs.Decide.{in_set, no_set, standing_of}
use mongo_ha.Rs.Orchestrate.{state_removed, member, membership}

-- Whether `wait_for_final_mongod` returns at this reply.
unfoldable pub is_final_mongod : Bool → Reply Hello → Bool
unfolding replication_enabled
is_final_mongod rs_enabled (ok h) = not (rs_enabled && not (replication_enabled h))
is_final_mongod rs_enabled (err e) = false

module _ (b : Documents) where
  open b use {Document, get, view}

  abbrev pub i64_value : View b.Bson Document b.F64 → Option ℤ
  i64_value (int64 i) = some i
  i64_value (int32 i) = some i
  i64_value _ = none

  -- `get_i64`, or else `get_i32`.
  unfoldable pub config_version_of : Reply Document → Option ℤ
  config_version_of (err e) = none
  config_version_of (ok c) = and_then (get c (codes "version")) (λ v. i64_value (view v))

  abbrev pub window_seconds : Reply (Option Duration) → Option ℕ
  window_seconds (err e) = none
  window_seconds (ok w) = Option_map as_secs w

  unfoldable pub absent_state : Text → Bool → Option ℕ → RsState
  absent_state node_id has_data window = record {
    node_id = node_id;
    set_active = false;
    set_name = none;
    my_state = none;
    is_primary = false;
    primary_host = none;
    members = [];
    members_total = 0;
    members_healthy = 0;
    voting_members = none;
    has_data = has_data;
    config_version = none;
    oplog_window_seconds = window;
  }

  abbrev pub primary_host_of : List RsMember → Option Text
  primary_host_of members =
      Option_map (λ m. m.host) (find (λ m. eq_ℤ m.state state_primary) members)

  unfoldable pub active_state : Text → Bool → Option ℤ → Option ℕ → Active → RsState
  active_state node_id has_data version window a = record {
    node_id = node_id;
    set_active = not (eq_ℤ a.my_state state_removed);
    set_name = some a.set_name;
    my_state = some a.my_state_str;
    is_primary = eq_ℤ a.my_state state_primary;
    primary_host = primary_host_of a.members;
    members = map (λ m. m.host) a.members;
    members_total = length a.members;
    members_healthy = count is_reachable a.members;
    voting_members = a.voting_members;
    has_data = has_data;
    config_version = version;
    oplog_window_seconds = window;
  }

  -- The replies of `replSetGetStatus`, of the config read and of the oplog read.
  unfoldable pub local_rs_state :
      Text → Bool → Reply RsStatus → Reply Document → Reply (Option Duration) → Reply RsState
  unfolding absent_state active_state config_version_of
  local_rs_state node_id has_data (err e) config window = err e
  local_rs_state node_id has_data (ok not_initialized) config window =
      ok (absent_state node_id has_data (window_seconds window))
  local_rs_state node_id has_data (ok not_a_member) config window =
      ok (absent_state node_id has_data (window_seconds window))
  local_rs_state node_id has_data (ok (active a)) config window =
      ok (active_state node_id has_data (config_version_of config) (window_seconds window) a)

  -- A node that answers is seen by its peers as in a set exactly when its own loop takes it for a
  -- member; otherwise they see its data, and neither a removed nor a dropped member counts as a set.
  pub local_rs_state-standing :
      (node_id : Text) (has_data : Bool) (status : RsStatus) (config : Reply Document)
      (window : Reply (Option Duration))
      → (s : RsState) × (local_rs_state node_id has_data (ok status) config window ≡ ok s)
        × (((membership status ≡ member) × (standing_of (state s) ≡ in_set s.primary_host))
            ⊎ ((membership status ≢ member) × (standing_of (state s) ≡ no_set has_data)))
  unfolding local_rs_state membership standing_of
  local_rs_state-standing node_id has_data not_initialized config window =
      (absent_state node_id has_data (window_seconds window), refl, inr (λ e. cc, refl))
  local_rs_state-standing node_id has_data not_a_member config window =
      (absent_state node_id has_data (window_seconds window), refl, inr (λ e. cc, refl))
  local_rs_state-standing node_id has_data (active a) config window =
      elim (Bool-cases (eq_ℤ a.my_state state_removed)) [
        | inl e ↦ (
          active_state node_id has_data (config_version_of config) (window_seconds window) a,
          refl,
          inr (λ h. ground (arith, e, h), ground (arith, e)),
        )
        | inr e ↦ (
          active_state node_id has_data (config_version_of config) (window_seconds window) a,
          refl,
          inl (ground (arith, e), ground (arith, e)),
        )
      ]
