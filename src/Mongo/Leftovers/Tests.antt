-- ===== src/Mongo/Leftovers/Tests.antt =====
-- A standalone with both leftovers.
use mongo_ha.Base.{◌≡◌, refl, ◌↔◌, true, none, some, [], ◌∷◌}
use mongo_ha.Text.{codes, text_eq}
use mongo_ha.Mongo.{command, ok, err, command_error_code}
use mongo_ha.Mongo.Leftovers.{
  create_role, grant_role, drop_local, drop_preimages, revoke_role, drop_role, Leftovers,
  drop_stale_replset_config, authenticated_as_root,
}
use mongo_ha.Mongo.Leftovers.Cleanup.{AllDropped, drop_stale-AllDropped_iff}

-- The role is there already, and the pre-images go away by themselves.
abbrev both : Leftovers
both = record {
  count = ok 1;
  has_preimages = ok true;
  created = err (command 51002);
  granted = ok tt;
  local_dropped = ok tt;
  preimages_dropped = err (command 26);
}

both_dropped : drop_stale_replset_config both ≡ (
  ok true,
  create_role ∷ grant_role ∷ drop_local ∷ drop_preimages ∷ revoke_role ∷ drop_role ∷ [],
)
unfolding drop_stale_replset_config command_error_code
both_dropped = refl

-- A refused grant leaves the role behind.
refused_grant :
    drop_stale_replset_config (record both { granted = err (command 13) })
    ≡ (err (command 13), create_role ∷ grant_role ∷ [])
unfolding drop_stale_replset_config command_error_code
refused_grant = refl

root_of_admin :
    authenticated_as_root
      (some (record {
        users = some ((some (codes "mongo"), some (codes "admin")) ∷ []);
        roles = some ((none, none) ∷ (some (codes "root"), some (codes "admin")) ∷ []);
      }))
      (codes "mongo")
    ≡ true
unfolding authenticated_as_root text_eq
root_of_admin = refl

drop_stale-AllDropped_iff_example :
    ((drop_stale_replset_config both).0 ≡ ok true) ↔ AllDropped both 1 true
drop_stale-AllDropped_iff_example = drop_stale-AllDropped_iff both 1 true refl refl
