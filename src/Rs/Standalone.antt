-- ===== src/Rs/Standalone.antt =====
-- mongo-wrapper/src/rs.rs: what a standalone node does once its final mongod answers
-- (`standalone_duties`).
use mongo_ha.Base.{In, ◌≡◌, refl, sym, inl, inr, Bool, false, List, [], ◌∷◌}
use mathlib.Core.Path.{subst}
use mongo_ha.Text.{Text, codes}
use mongo_ha.Mongo.{MongoError, command, Reply, ok, err}
use mongo_ha.Mongo.Leftovers.{Command, Leftovers, drop_stale_replset_config}
use mongo_ha.Telemetry.{TelemetryEvent, node_started, component_error}

-- The report of a failed check, with the printed error.
abbrev pub failed_check : Text → TelemetryEvent
failed_check error =
    component_error (codes "mongo-wrapper") error (codes "drop_stale_replset_config")

-- `display` prints an error with its causes.
abbrev pub events_after : (MongoError → Text) → Text → Reply Bool → List TelemetryEvent
events_after display private_domain (ok dropped) =
    node_started private_domain (codes "standalone") ∷ []
events_after display private_domain (err e) =
    failed_check (display e) ∷ node_started private_domain (codes "standalone") ∷ []

-- The commands sent, and the events.
unfoldable pub standalone_duties :
    (MongoError → Text) → Text → Leftovers → List Command × List TelemetryEvent
unfolding drop_stale_replset_config
standalone_duties display private_domain l =
    let (verdict, commands) = drop_stale_replset_config l in
    (commands, events_after display private_domain verdict)

-- A check that fails is reported, and the node starts all the same.
pub standalone_duties-reports :
    (display : MongoError → Text) (private_domain : Text) (l : Leftovers) (e : MongoError)
    → (drop_stale_replset_config l).0 ≡ err e
    → In (failed_check (display e)) (standalone_duties display private_domain l).1
      × In
          (node_started private_domain (codes "standalone"))
          (standalone_duties display private_domain l).1
unfolding standalone_duties
standalone_duties-reports display private_domain l e h =
    subst
      (λ v.
        In (failed_check (display e)) (events_after display private_domain v)
        × In (node_started private_domain (codes "standalone"))
            (events_after display private_domain v))
      (sym h) (inl refl, inr (inl refl))

started :
    standalone_duties
      (λ e. codes "refused")
      (codes "mongo-0")
      (record {
        count = err (command 13);
        has_preimages = ok false;
        created = ok tt;
        granted = ok tt;
        local_dropped = ok tt;
        preimages_dropped = ok tt;
      })
    ≡ (
      [],
      failed_check (codes "refused") ∷ node_started (codes "mongo-0") (codes "standalone") ∷ [],
    )
unfolding standalone_duties
started = refl
