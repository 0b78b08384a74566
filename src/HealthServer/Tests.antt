-- ===== src/HealthServer/Tests.antt =====
-- The endpoints on concrete replies.
use mongo_ha.Base.{◌⊎◌, ◌≡◌, true, false, none, some, [], ◌∷◌}
use mongo_ha.Text.{codes}
use mongo_ha.Int64.{pos}
use mongo_ha.Mongo.{ok, Hello, RsMember, Active, active}
use mongo_ha.HealthServer.{role, status_ok, service_unavailable, new_log}
use mongo_ha.HealthServer.Fence.{IsRoutable, role-ok_iff}

abbrev writable : Hello
writable = record {
  is_writable_primary = true;
  secondary = false;
  set_name = some (codes "rs0");
  isreplicaset = false;
  primary = none;
}

abbrev lone_member : RsMember
lone_member = record {
  id = pos 0;
  host = codes "mongo-0:27017";
  state = pos 1;
  state_str = codes "PRIMARY";
  healthy = true;
  is_self = true;
  optime_secs = some 7;
}

abbrev lone_set : Active
lone_set = record {
  set_name = codes "rs0";
  my_state = pos 1;
  my_state_str = codes "PRIMARY";
  members = lone_member ∷ [];
  voting_members = some 1;
}

role-ok_iff_example :
    (IsRoutable (ok writable) (ok (active lone_set))
      × ((role 0 (ok writable) (ok (active lone_set)) new_log).1.0 ≡ status_ok))
    ⊎ ((IsRoutable (ok writable) (ok (active lone_set)) → ⊥)
        × ((role 0 (ok writable) (ok (active lone_set)) new_log).1.0 ≡ service_unavailable))
role-ok_iff_example = role-ok_iff 0 (ok writable) (ok (active lone_set)) new_log
