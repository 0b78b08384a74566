-- ===== src/Mongo/Status.antt =====
-- mongo-wrapper/src/mongo.rs: what `rs_status`, `rs_config`, `hello` and the oplog reads make of the
-- replies of mongod. A reply is the document or the error of the command.
use mongo_ha.Base.{
  ltb, ◌==◌, if◌then◌else◌, unwrap_or, Option_filter, and_then, Option_map, find, filter_map,
  Duration, from_secs, ℕ, ◌-◌, Bool, false, ◌||◌, Option, none, some, List, [], map,
}
use mongo_ha.Text.{codes}
use mongo_ha.Int64.{pos, negsuc, leb_ℤ, as_i32, clamp_usize}
use mongo_ha.Bson.{
  Documents, as_document, get_str, get_bool, get_document, get_array, get_timestamp, get_f64,
}
use mongo_ha.Mongo.{
  not_yet_initialized, invalid_replica_set_config, MongoError, other_error, Reply, ok, err,
  command_error_code, RsMember, Active, RsStatus, not_initialized, not_a_member, active,
}
use mongo_ha.Mongo.Config.{bson_int}

module _ (b : Documents) where
  open b use {Document, Bson, get, at_least_one}

  -- `health` as a double or as an integer.
  unfoldable pub is_healthy : Document → Bool
  is_healthy m =
      unwrap_or (Option_map at_least_one (get_f64 b m (codes "health"))) false
      || unwrap_or (Option_map (λ h. leb_ℤ (pos 1) h) (bson_int b (get m (codes "health")))) false

  -- A zero optime is an absent one.
  unfoldable pub optime_of : Document → Option ℕ
  optime_of m =
      Option_filter (λ secs. ltb 0 secs)
        (and_then (get_document b m (codes "optime")) (λ d. get_timestamp b d (codes "ts")))

  unfoldable pub member_from_doc : Document → RsMember
  unfolding is_healthy optime_of
  member_from_doc m = record {
    id = unwrap_or (bson_int b (get m (codes "_id"))) (negsuc 0);
    host = unwrap_or (get_str b m (codes "name")) [];
    state = as_i32 (unwrap_or (bson_int b (get m (codes "state"))) (negsuc 0));
    state_str = unwrap_or (get_str b m (codes "stateStr")) [];
    healthy = is_healthy m;
    is_self = unwrap_or (get_bool b m (codes "self")) false;
    optime_secs = optime_of m;
  }

  abbrev pub members_of : Document → List RsMember
  members_of d =
      unwrap_or
        (Option_map (λ arr. map member_from_doc (filter_map (as_document b) arr))
          (get_array b d (codes "members")))
        []

  abbrev pub active_of : Document → Active
  active_of d = record {
    set_name = unwrap_or (get_str b d (codes "set")) [];
    my_state = as_i32 (unwrap_or (bson_int b (get d (codes "myState"))) (negsuc 0));
    my_state_str =
        unwrap_or (Option_map (λ m. m.state_str) (find (λ m. m.is_self) (members_of d))) [];
    members = members_of d;
    voting_members = Option_map clamp_usize (bson_int b (get d (codes "votingMembersCount")));
  }

  -- The two refusals of `replSetGetStatus` that mean the node is in no live set.
  abbrev pub status_of_code : MongoError → Option ℕ → Reply RsStatus
  status_of_code e none = err e
  status_of_code e (some code) =
      if code == not_yet_initialized
      then ok not_initialized
      else (if code == invalid_replica_set_config then ok not_a_member else err e)

  unfoldable pub rs_status : Reply Document → Reply RsStatus
  unfolding member_from_doc
  rs_status (ok d) = ok (active (active_of d))
  rs_status (err e) = status_of_code e (command_error_code e)

  abbrev pub or_no_config : Option Document → Reply Document
  or_no_config (some d) = ok d
  or_no_config none = err other_error

  unfoldable pub rs_config : Reply Document → Reply Document
  rs_config (ok d) = or_no_config (get_document b d (codes "config"))
  rs_config (err e) = err e

  -- The oplog's oldest entry and then its newest.
  abbrev pub window_between : Option ℕ → Option ℕ → Option Duration
  window_between (some first) (some last) = some (from_secs (last - first))
  window_between _ _ = none

  abbrev pub newest_read : Document → Reply (Option Document) → Reply (Option Duration)
  newest_read first (err e) = err e
  newest_read first (ok none) = ok none
  newest_read first (ok (some last)) =
      ok (window_between (get_timestamp b first (codes "ts")) (get_timestamp b last (codes "ts")))

  unfoldable pub oplog_window :
      Reply (Option Document) → Reply (Option Document) → Reply (Option Duration)
  oplog_window (err e) newest = err e
  oplog_window (ok none) newest = ok none
  oplog_window (ok (some first)) newest = newest_read first newest
