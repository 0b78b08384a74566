-- ===== src/Supervise.antt =====
-- mongo-wrapper/src/process_manager.rs and demote_on_shutdown.rs: the supervision of mongod as steps
-- on events. What mongod, the volume and the clock answer is part of the event.
pub mod Restart
mod Tests
use mongo_ha.Base.{
  ltb, leb, ◌==◌, if◌then◌else◌, ltb→lt, lt→ltb, leb→le, le→leb, leb→gt, ltb→ge, ==_iff, tests,
  Bool-cases, Option-cases, and_true, or_false, is_some, is_some_and, or_else, unwrap_or,
  Option_filter, and_then, Option_map, if_elim, All, Any, In, length, any, all, find, filter, count,
  position, length-append, count-le-length, find-eq-some, find-eq-none, any-eq-false, any-eq-true,
  all-eq-true, find_map, filter_map, All-append, All-In, Any-In, In-filter, In-map, List-cases,
  filter_map-append, filter_map-filter, filter-append, All-of_In, filter_map-In, In-filter_map,
  In-append_left, In-append_right, In-append, In-guard, guard-In, append_nil, append_assoc,
  Duration, Instant, nanos_per_sec, from_secs, from_millis, as_secs, duration_since, bit_xor-zero,
  bit_xor_refl, bit_or-zero, ℕ, zero, suc, ◌+◌, ◌-◌, ◌*◌, ◌/◌, ◌%◌, ◌^◌, bit_or, bit_xor, ◌≤◌, ◌<◌,
  min, max, String, ◌≡◌, refl, sym, ap, ◌∙◌, ◌≢◌, ◌↔◌, ◌⊎◌, inl, inr, Bool, true, false, not, ◌&&◌,
  ◌||◌, Option, none, some, List, [], ◌∷◌, ◌++◌, map, arith,
}
use mongo_ha.Text.{Text, codes, is_empty, text_eq, text_eq_refl, text_eq_iff, text_eq-ne}
use mongo_ha.Mongo.{
  not_yet_initialized, invalid_replica_set_config, already_initialized, new_config_incompatible,
  configuration_in_progress, not_writable_primary, exceeded_time_limit, unauthorized,
  authentication_failed, MongoError, timed_out, authentication, command, server_selection, io,
  pool_cleared, other_error, Reply, ok, err, command_error_code, Hello, replication_enabled,
  RsMember, Active, RsStatus, not_initialized, not_a_member, active, state_primary, is_reachable,
  has_majority,
}

-- What the process does, in order.
pub data Action : Type 0 where
  step_down : ℕ → ℕ → Action
  write_keyfile set_loaded_keyfile : Text → Action
  signal_mongod kill_mongod spawn_mongod : Action
  exit : ℕ → Action

-- The answers to a planned handoff: `hello`, the step-down, `hello` again; `none` when the deadline
-- passes while it is awaited.
pub record Handoff : Type 0 where
  pub first_hello : Option (Reply Hello)
  pub stepped_down : Option (Reply (Unit {0}))
  pub second_hello : Option (Reply Hello)

-- A graceful shutdown: mongod has a pid, and exits within 30 s of the signal.
pub record Shutdown : Type 0 where
  pub has_pid : Bool
  pub exits_in_time : Bool

pub data Event : Type 0 where
  restart_mongo : Option Text → Handoff → Bool → Shutdown → Bool → Event
  child_exited : Reply (Option ℕ) → Event
  terminated : Handoff → Shutdown → Event

-- Whether this is a member (only a member hands off), the keyfile that mongod runs with, and
-- whether the supervision goes on.
pub record Supervisor : Type 0 where
  pub member : Bool
  pub loaded_keyfile : Option Text
  pub running : Bool

unfoldable pub graceful_shutdown : Shutdown → List Action
graceful_shutdown s =
    if s.has_pid
    then (if s.exits_in_time then signal_mongod ∷ [] else signal_mongod ∷ kill_mongod ∷ [])
    else []

abbrev pub is_ok : Reply (Unit {0}) → Bool
is_ok (ok u) = true
is_ok (err e) = false

abbrev pub is_primary : Reply Hello → Bool
is_primary (ok h) = h.is_writable_primary
is_primary (err e) = false

abbrev pub is_not_primary : Reply Hello → Bool
is_not_primary (ok h) = not h.is_writable_primary
is_not_primary (err e) = false

abbrev pub says_primary : Option (Reply Hello) → Bool
says_primary o = is_some_and o is_primary

abbrev pub says_not_primary : Option (Reply Hello) → Bool
says_not_primary o = is_some_and o is_not_primary

-- The handoff of a restart: what it does, and whether it went through.
unfoldable pub handoff : Handoff → List Action × Bool
handoff h = (
  if says_primary h.first_hello then step_down 60 10 ∷ [] else [],
  (says_not_primary h.first_hello
        || (says_primary h.first_hello && is_some_and h.stepped_down is_ok))
      && says_not_primary h.second_hello,
)

-- The demotion before a shutdown, whose outcome is only logged.
unfoldable pub demote_if_primary : Handoff → List Action
demote_if_primary h = if says_primary h.first_hello then step_down 60 10 ∷ [] else []

abbrev pub same_key : Option Text → Text → Bool
same_key loaded target = is_some_and loaded (λ k. text_eq k target)

abbrev pub ended : Supervisor → Supervisor
ended s = record s { running = false }

-- The restart, once the handoff went through: the write of the keyfile and the spawn can fail,
-- which ends `supervise` with an error.
unfoldable pub restart : Text → Bool → Shutdown → Bool → Supervisor → Supervisor × List Action
unfolding graceful_shutdown
restart target writable stop spawns s =
    let down = write_keyfile target ∷ graceful_shutdown stop in
    let back : Supervisor × List Action = (
      record s { loaded_keyfile = some target },
      down ++ spawn_mongod ∷ set_loaded_keyfile target ∷ [],
    ) in
    let half : Supervisor × List Action = (ended s, down) in
    let refused : Supervisor × List Action = (ended s, []) in
    if writable then (if spawns then back else half) else refused

abbrev pub after_handoff :
    List Action × Bool → Text → Bool → Shutdown → Bool → Supervisor → Supervisor × List Action
after_handoff (acts, false) target writable stop spawns s = (s, acts)
after_handoff (acts, true) target writable stop spawns s =
    let (t, more) = restart target writable stop spawns s in (t, acts ++ more)

abbrev pub child_code : Reply (Option ℕ) → ℕ
child_code (ok none) = 1
child_code (ok (some code)) = code
child_code (err e) = 1

-- One turn of the `select!` loop.
unfoldable pub supervise_step : Event → Supervisor → Supervisor × List Action
unfolding handoff demote_if_primary restart graceful_shutdown
supervise_step (restart_mongo none h writable stop spawns) s = (s, [])
supervise_step (restart_mongo (some target) h writable stop spawns) s =
    if same_key s.loaded_keyfile target || not s.member
    then (s, [])
    else after_handoff (handoff h) target writable stop spawns s
supervise_step (child_exited status) s =
    let code = child_code status in (ended s, exit (if code == 0 then 1 else code) ∷ [])
supervise_step (terminated h stop) s =
    let demotion = if s.member then demote_if_primary h else [] in
    (ended s, (demotion ++ graceful_shutdown stop) ++ exit 0 ∷ [])

abbrev pub then_run :
    Supervisor × List Action → (Supervisor → Supervisor × List Action) → Supervisor × List Action
then_run (s, acts) go = let (t, more) = go s in (t, acts ++ more)

abbrev pub while_running : Bool → Supervisor → Supervisor × List Action → Supervisor × List Action
while_running false s r = (s, [])
while_running true s r = r

-- The events in order, until the supervision ends.
unfoldable pub supervise : List Event → Supervisor → Supervisor × List Action
unfolding supervise_step
supervise [] s = (s, [])
supervise (e ∷ es) s = while_running s.running s (then_run (supervise_step e s) (supervise es))
