-- ===== src/Rs/Duties.antt =====
-- mongo-wrapper/src/rs.rs: the duties of a member, `prune_round`, `replication_health_round` and one
-- tick of `member_duties`.
pub mod Prune
pub mod Alerts
mod Tests
use mongo_ha.Base.{
  ltb, leb, ◌==◌, if◌then◌else◌, ltb→lt, lt→ltb, leb→le, le→leb, leb→gt, ltb→ge, ==_iff, tests,
  Bool-cases, Option-cases, and_true, or_false, is_some, is_some_and, or_else, unwrap_or,
  Option_filter, and_then, Option_map, All, Any, In, length, any, all, find, filter, count,
  position, length-append, count-le-length, find-eq-some, find-eq-none, any-eq-false, any-eq-true,
  all-eq-true, find_map, filter_map, All-append, All-In, Any-In, In-filter, In-map, List-cases,
  filter_map-append, filter_map-filter, filter-append, All-of_In, filter_map-In, In-filter_map,
  In-append_left, In-append_right, In-append, In-guard, guard-In, Duration, Instant, nanos_per_sec,
  from_secs, from_millis, as_secs, duration_since, ℕ, zero, suc, ◌+◌, ◌-◌, ◌*◌, ◌/◌, ◌%◌, ◌^◌, ◌≤◌,
  ◌<◌, min, max, String, ◌≡◌, refl, sym, ap, ◌∙◌, ◌≢◌, ◌↔◌, ◌⊎◌, inl, inr, Bool, true, false, not,
  ◌&&◌, ◌||◌, Option, none, some, List, [], ◌∷◌, ◌++◌, map, arith,
}
use mongo_ha.Text.{Text, codes, text_eq}
use mongo_ha.Maps.{contains, add, retain_set}
use mongo_ha.Int64.{ℤ, eq_ℤ}
use mongo_ha.Bson.{Documents}
use mongo_ha.DnsProbe.{NameVerdict}
use mongo_ha.Mongo.{
  not_yet_initialized, invalid_replica_set_config, already_initialized, new_config_incompatible,
  configuration_in_progress, not_writable_primary, exceeded_time_limit, unauthorized,
  authentication_failed, MongoError, timed_out, authentication, command, server_selection, io,
  pool_cleared, other_error, Reply, ok, err, command_error_code, Hello, replication_enabled,
  RsMember, Active, RsStatus, not_initialized, not_a_member, active, state_primary, is_reachable,
  has_majority,
}
use mongo_ha.Mongo.Address.{split_host_port}
use mongo_ha.Mongo.Config
use mongo_ha.Mongo.Config.{Built, config_with_member_removed}
use mongo_ha.ReplicationMonitor
use mongo_ha.ReplicationMonitor.{
  MemberStateTracker, MemberObservation, ReplicationSignal, dedupe_key, derive_signals,
  retain_known,
}
use mongo_ha.Rs.Gone.{GoneTracker, new, observe, observe_reachable, is_waived}

-- The calls of a member's tick that change something outside.
pub data Duty (D : Type 0) : Type 0 where
  reconfig : Text → D → Duty D
  node_started : Text → Duty D
  role_changed : Text → Text → Duty D
  pruned : Text → Duty D
  alert : ReplicationSignal → Duty D
  auth_read : Duty D

unfoldable pub role_of : Hello → Text
role_of h =
    if h.is_writable_primary
    then codes "primary"
    else (if h.secondary then codes "secondary" else codes "other")

-- The observations of one poll, each recorded in the tracker in turn.
unfoldable pub observe_members :
    Instant → List RsMember → MemberStateTracker → MemberStateTracker × List MemberObservation
observe_members now [] t = (t, [])
observe_members now (m ∷ ms) t =
    let (t1, dwell) = ReplicationMonitor.observe m.host m.state_str now t in
    let (t2, rest) = observe_members now ms t1 in
    let o : MemberObservation = record {
      host = m.host;
      state_str = m.state_str;
      optime_secs = m.optime_secs;
      is_self = m.is_self;
      healthy = m.healthy;
      dwell = dwell;
    } in
    (t2, o ∷ rest)

-- What the health round reads besides the status: the window, whether the oplog is full enough to be
-- bounded by its size, and the clock.
pub record Health : Type 0 where
  pub status : Reply RsStatus
  pub oplog_window : Reply (Option Duration)
  pub fill_bounded : Reply (Option Bool)
  pub now : Instant

abbrev pub or_none : Reply (Option Duration) → Option Duration
or_none (ok w) = w
or_none (err e) = none

abbrev pub size_bounded : Reply (Option Bool) → Bool
size_bounded (ok fill) = unwrap_or fill false
size_bounded (err e) = false

abbrev pub primary_optime : List RsMember → Option ℕ
primary_optime members =
    and_then (find (λ m. eq_ℤ m.state state_primary) members) (λ m. m.optime_secs)

module _ (D : Type 0) where
  -- One signal: the alerted keys, the active keys and the calls.
  unfoldable pub raise_alerts :
      List ReplicationSignal → List Text → List Text → List Text × List Text × List (Duty D)
  raise_alerts [] alerted live = (alerted, live, [])
  raise_alerts (s ∷ ss) alerted live =
      let key = dedupe_key s in
      let (alerted2, live2, fx) = raise_alerts ss (add key alerted) (add key live) in
      (alerted2, live2, if contains key alerted then fx else alert s ∷ fx)

  abbrev pub keep_active : List Text × List Text × List (Duty D) → List Text × List (Duty D)
  keep_active (alerted, live, fx) = (retain_set (λ k. contains k live) alerted, fx)

  -- The loop over the signals and the `retain` after it.
  unfoldable pub alert_round : List ReplicationSignal → List Text → List Text × List (Duty D)
  unfolding raise_alerts
  alert_round signals alerted = keep_active (raise_alerts signals alerted [])

  abbrev pub health_of_members :
      Health
      → List RsMember
      → MemberStateTracker
      → List Text
      → MemberStateTracker × List Text × List (Duty D)
  health_of_members h members t alerted =
      let (t1, observations) = observe_members h.now members t in
      let (alerted2, fx) =
        alert_round
          (derive_signals (or_none h.oplog_window) (size_bounded h.fill_bounded)
            (primary_optime members) observations)
          alerted in
      (retain_known (map (λ m. m.host) members) t1, alerted2, fx)

  unfoldable pub replication_health_round :
      Health
      → Reply RsStatus
      → MemberStateTracker
      → List Text
      → MemberStateTracker × List Text × List (Duty D)
  unfolding alert_round observe_members
  replication_health_round h (ok (active a)) t alerted = health_of_members h a.members t alerted
  replication_health_round h _ t alerted = (t, alerted, [])

module _ (b : Documents) where
  open b use {Document}

  -- What a prune round learns: the status, the clock, the resolver's verdict on a bare name, and the
  -- replies to the config read and to the reconfig that it makes for a member.
  pub record Pruning : Type 0 where
    pub status : Reply RsStatus
    pub now : Instant
    pub probe : Text → NameVerdict
    pub rs_config : Text → Reply Document
    pub rs_reconfig : Text → Document → Reply (Unit {0})

  abbrev pub probed_member : Pruning → RsMember → GoneTracker → GoneTracker
  probed_member p m g = observe m.host (p.probe (split_host_port m.host).0) p.now g

  -- What the round does after the reply to the reconfig; `rest` goes on with the next member.
  abbrev pub after_reconfig :
      Text
      → Document
      → GoneTracker
      → GoneTracker × List (Duty Document)
      → Reply (Unit {0})
      → GoneTracker × List (Duty Document)
  after_reconfig host next g rest (ok u) =
      (observe_reachable host g, reconfig host next ∷ pruned host ∷ [])
  after_reconfig host next g (g2, fx) (err e) = (g2, reconfig host next ∷ fx)

  abbrev pub removal :
      Pruning
      → Text
      → GoneTracker
      → GoneTracker × List (Duty Document)
      → Built Document
      → GoneTracker × List (Duty Document)
  removal p host g rest (Config.ok next) = after_reconfig host next g rest (p.rs_reconfig host next)
  removal p host g rest (Config.err why) = rest

  abbrev pub removal_from :
      Pruning
      → Text
      → GoneTracker
      → GoneTracker × List (Duty Document)
      → Reply Document
      → GoneTracker × List (Duty Document)
  removal_from p host g rest (err e) = (g, [])
  removal_from p host g rest (ok current) =
      removal p host g rest (config_with_member_removed b current host)

  unfoldable pub prune_members :
      Pruning → Duration → List RsMember → GoneTracker → GoneTracker × List (Duty Document)
  prune_members p dwell [] g = (g, [])
  prune_members p dwell (m ∷ ms) g =
      let skipped = prune_members p dwell ms g in
      let seen = prune_members p dwell ms (observe_reachable m.host g) in
      let asked = probed_member p m g in
      let rest = prune_members p dwell ms asked in
      if m.is_self
      then skipped
      else (if m.healthy
          then seen
          else (if is_waived m.host p.now dwell asked
              then removal_from p m.host asked rest (p.rs_config m.host)
              else rest))

  unfoldable pub prune_round :
      Pruning → Duration → Reply RsStatus → GoneTracker → GoneTracker × List (Duty Document)
  unfolding prune_members
  prune_round p dwell (ok (active a)) g = prune_members p dwell a.members g
  prune_round p dwell _ g = (g, [])

  -- The variables of `member_duties`.
  pub record Duties : Type 0 where
    pub last_role : Option Text
    pub gone : GoneTracker
    pub member_states : MemberStateTracker
    pub replication_alerts : List Text

  unfoldable pub role_events : Option Text → Text → List (Duty Document)
  role_events none role = node_started role ∷ []
  role_events (some prev) role = if text_eq prev role then [] else role_changed prev role ∷ []

  abbrev pub primary_rounds :
      Pruning → Health → Duration → Text → Duties → Duties × List (Duty Document)
  primary_rounds p h dwell role d =
      let (g, fx) = prune_round p dwell p.status d.gone in
      let (t, alerts, gx) =
        replication_health_round Document h h.status d.member_states d.replication_alerts in
      (
        record { last_role = some role; gone = g; member_states = t; replication_alerts = alerts },
        fx ++ gx,
      )

  -- One tick of the loop.
  unfoldable pub tick :
      Pruning → Health → Duration → Reply Hello → Duties → Duties × List (Duty Document)
  unfolding prune_round replication_health_round role_events role_of
  tick p h dwell (err e) d = (d, [])
  tick p h dwell (ok hello) d =
      let role = role_of hello in
      let told = role_events d.last_role role in
      if hello.is_writable_primary
      then (let (d2, fx) = primary_rounds p h dwell role d in (d2, told ++ fx))
      else (record d { last_role = some role }, told ++ auth_read ∷ [])
