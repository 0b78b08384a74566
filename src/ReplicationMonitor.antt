-- ===== src/ReplicationMonitor.antt =====
-- mongo-wrapper/src/replication_monitor.rs: which thresholds one poll of the primary crosses, and how
-- long each member has held its state.
pub mod Thresholds
pub mod Dwell
pub mod Keys
mod Tests
use mongo_ha.Base.{
  ltb, leb, ◌==◌, if◌then◌else◌, ltb→lt, lt→ltb, leb→le, le→leb, leb→gt, ltb→ge, ==_iff, tests,
  Bool-cases, Option-cases, and_true, or_false, is_some, is_some_and, or_else, unwrap_or,
  Option_filter, and_then, Option_map, All, Any, In, length, any, all, find, filter, count,
  position, length-append, count-le-length, find-eq-some, find-eq-none, any-eq-false, any-eq-true,
  all-eq-true, find_map, filter_map, All-append, All-In, Any-In, In-filter, In-map, List-cases,
  filter_map-append, filter_map-filter, filter-append, All-of_In, filter_map-In, In-filter_map,
  Duration, Instant, nanos_per_sec, from_secs, from_millis, as_secs, duration_since, ℕ, zero, suc,
  ◌+◌, ◌-◌, ◌*◌, ◌/◌, ◌%◌, ◌^◌, ◌≤◌, ◌<◌, min, max, String, ◌≡◌, refl, sym, ap, ◌∙◌, ◌≢◌, ◌↔◌, ◌⊎◌,
  inl, inr, Bool, true, false, not, ◌&&◌, ◌||◌, Option, none, some, List, [], ◌∷◌, ◌++◌, map, arith,
}
use mongo_ha.Text.{Text, codes, text_eq}
use mongo_ha.Maps.{
  get, remove, insert, retain, get-nil, get-remove, get-insert, get-retain, map_laws, contains, add,
  retain_set, contains-nil, contains-add, contains-retain,
}

abbrev pub recovering : Text
recovering = codes "RECOVERING"

abbrev pub startup2 : Text
startup2 = codes "STARTUP2"

abbrev pub stuck_state_dwell : Duration
stuck_state_dwell = from_secs 900

abbrev pub oplog_window_floor : Duration
oplog_window_floor = from_secs 3600

-- `window.mul_f64(0.75)`. A window is a whole number of seconds below 2^32, so the double product is
-- exact.
abbrev pub warn_at : Duration → Duration
warn_at window = window * 3 / 4

-- For each host the state it reported last, and since when.
pub record MemberStateTracker : Type 0 where
  pub since : List (Text × (Text × Instant))

abbrev pub new : MemberStateTracker
new = record { since = [] }

abbrev pub dwell_of : Option (Text × Instant) → Text → Instant → Option Duration
dwell_of none state now = none
dwell_of (some (prev, since)) state now =
    if text_eq prev state then some (duration_since now since) else none

-- The two arms of the match.
abbrev pub recorded :
    Text → Text → Instant → MemberStateTracker → Option Duration → MemberStateTracker × Duration
recorded host state now t (some held) = (t, held)
recorded host state now t none = (record { since = insert host (state, now) t.since }, 0)

unfoldable pub observe : Text → Text → Instant → MemberStateTracker → MemberStateTracker × Duration
observe host state now t = recorded host state now t (dwell_of (get host t.since) state now)

unfoldable pub retain_known : List Text → MemberStateTracker → MemberStateTracker
retain_known hosts t = record { since = retain (λ h. contains h hosts) t.since }

pub record MemberObservation : Type 0 where
  pub host : Text
  pub state_str : Text
  pub optime_secs : Option ℕ
  pub is_self : Bool
  pub healthy : Bool
  pub dwell : Duration

pub data ReplicationSignal : Type 0 where
  stuck_in_state : Text → Text → Duration → ReplicationSignal
  falling_off_oplog : Text → Duration → Duration → ReplicationSignal
  oplog_window_low : Duration → ReplicationSignal

unfoldable pub dedupe_key : ReplicationSignal → Text
dedupe_key (stuck_in_state host state stuck_for) = codes "stuck:" ++ host
dedupe_key (falling_off_oplog host lag window) = codes "falling-off:" ++ host
dedupe_key (oplog_window_low window) = codes "oplog-window-low"

unfoldable pub context : ReplicationSignal → Text
context (stuck_in_state host state stuck_for) = codes "member-stuck-in-state"
context (falling_off_oplog host lag window) = codes "replication-lag-vs-oplog-window"
context (oplog_window_low window) = codes "oplog-window-low"

-- The set-wide signal.
unfoldable pub window_signals : Option Duration → List ReplicationSignal
window_signals none = []
window_signals (some window) =
    if ltb window oplog_window_floor then oplog_window_low window ∷ [] else []

unfoldable pub stuck_signals : MemberObservation → List ReplicationSignal
stuck_signals m =
    if (text_eq m.state_str recovering || text_eq m.state_str startup2)
      && leb stuck_state_dwell m.dwell
    then stuck_in_state m.host m.state_str m.dwell ∷ []
    else []

-- The lag of a replicating member, against a known window and known optimes.
unfoldable pub lag_signals :
    Text → Bool → Option Duration → Option ℕ → Option ℕ → List ReplicationSignal
lag_signals host true (some window) (some primary_secs) (some member_secs) =
    if ltb member_secs primary_secs && leb (warn_at window) (from_secs (primary_secs - member_secs))
    then falling_off_oplog host (from_secs (primary_secs - member_secs)) window ∷ []
    else []
lag_signals _ _ _ _ _ = []

unfoldable pub member_signals :
    Option Duration → Option ℕ → MemberObservation → List ReplicationSignal
unfolding stuck_signals lag_signals
member_signals window primary_secs m =
    if m.is_self
    then []
    else stuck_signals m
      ++ lag_signals m.host (m.healthy && text_eq m.state_str (codes "SECONDARY")) window
          primary_secs m.optime_secs

unfoldable pub all_member_signals :
    Option Duration → Option ℕ → List MemberObservation → List ReplicationSignal
unfolding member_signals
all_member_signals window primary_secs [] = []
all_member_signals window primary_secs (m ∷ ms) =
    member_signals window primary_secs m ++ all_member_signals window primary_secs ms

unfoldable pub derive_signals :
    Option Duration → Bool → Option ℕ → List MemberObservation → List ReplicationSignal
unfolding window_signals all_member_signals
derive_signals oplog_window oplog_size_bounded primary_secs members =
    let window = Option_filter (λ _. oplog_size_bounded) oplog_window in
    window_signals window ++ all_member_signals window primary_secs members
