-- ===== src/Supervise/Tests.antt =====
-- A keyfile restart on a primary, an exit by itself, and a termination.
use mongo_ha.Base.{Any, ◌≡◌, refl, inl, inr, Bool, true, false, not, none, some, List, [], ◌∷◌}
use mongo_ha.Text.{codes, text_eq}
use mongo_ha.Mongo.{ok, Hello}
use mongo_ha.Supervise.{
  step_down, write_keyfile, set_loaded_keyfile, signal_mongod, spawn_mongod, exit, Handoff,
  Shutdown, Event, restart_mongo, child_exited, terminated, Supervisor, supervise_step, supervise,
}
use mongo_ha.Supervise.Restart.{
  IsTermination, supervise-exit, last_written, supervise-last_written, IsHandedOff,
  restart-IsHandedOff,
}

abbrev hello_of : Bool → Hello
hello_of primary = record {
  is_writable_primary = primary;
  secondary = not primary;
  set_name = none;
  isreplicaset = false;
  primary = none;
}

abbrev gives_up : Handoff
gives_up = record {
  first_hello = some (ok (hello_of true));
  stepped_down = some (ok tt);
  second_hello = some (ok (hello_of false));
}

abbrev clean : Shutdown
clean = record { has_pid = true; exits_in_time = true }

abbrev at_first : Supervisor
at_first = record { member = true; loaded_keyfile = some (codes "old"); running = true }

abbrev rotation : Event
rotation = restart_mongo (some (codes "new")) gives_up true clean true

abbrev whole_run : List Event
whole_run = rotation ∷ rotation ∷ terminated gives_up clean ∷ rotation ∷ []

run_actions :
    (supervise whole_run at_first).1
    ≡ step_down 60 10
      ∷ write_keyfile (codes "new")
      ∷ signal_mongod
      ∷ spawn_mongod
      ∷ set_loaded_keyfile (codes "new")
      ∷ step_down 60 10
      ∷ signal_mongod
      ∷ exit 0
      ∷ []
unfolding supervise text_eq
run_actions = refl

clean_exit_fails : (supervise (child_exited (ok (some 0)) ∷ []) at_first).1 ≡ exit 1 ∷ []
unfolding supervise
clean_exit_fails = refl

supervise-exit_example : Any IsTermination whole_run
unfolding supervise text_eq
supervise-exit_example =
    supervise-exit whole_run at_first (inr (inr (inr (inr (inr (inr (inr (inl refl))))))))

supervise-last_written_example :
    (supervise (rotation ∷ []) at_first).0.loaded_keyfile
    ≡ last_written (some (codes "old")) (supervise (rotation ∷ []) at_first).1
unfolding supervise text_eq
supervise-last_written_example = supervise-last_written (rotation ∷ []) at_first refl

restart-IsHandedOff_example : IsHandedOff at_first (some (codes "new")) gives_up
unfolding supervise_step text_eq
restart-IsHandedOff_example =
    restart-IsHandedOff (some (codes "new")) gives_up true clean true at_first
      (inr (inr (inl refl)))
