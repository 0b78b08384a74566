-- ===== src/Rs/Orchestrate.antt =====
-- mongo-wrapper/src/rs.rs: `orchestrate`, the loop of a node that is no member yet, one round at a
-- time. What a round learns from outside is its input; what it does there is its list of effects.
pub mod Initiation
pub mod Stability
pub mod Waivers
use mongo_ha.Base.{
  ltb, leb, ◌==◌, if◌then◌else◌, ltb→lt, lt→ltb, leb→le, le→leb, leb→gt, ltb→ge, ==_iff, tests,
  Bool-cases, Option-cases, and_true, or_false, is_some, is_some_and, or_else, unwrap_or,
  Option_filter, and_then, Option_map, All, Any, In, length, any, all, find, filter, count,
  position, length-append, count-le-length, find-eq-some, find-eq-none, any-eq-false, any-eq-true,
  all-eq-true, find_map, filter_map, All-append, All-In, Any-In, In-filter, In-map, List-cases,
  filter_map-append, filter_map-filter, filter-append, All-of_In, filter_map-In, In-filter_map,
  In-append_left, In-append_right, In-append, In-guard, guard-In, Duration, Instant, nanos_per_sec,
  from_secs, from_millis, as_secs, duration_since, ℕ, zero, suc, ◌+◌, ◌-◌, ◌*◌, ◌/◌, ◌%◌, ◌^◌, ◌≤◌,
  ◌<◌, min, max, String, ◌≡◌, refl, sym, ap, ◌∙◌, ◌≢◌, ◌↔◌, ◌⊎◌, inl, inr, Bool, true, false, not,
  ◌&&◌, ◌||◌, Option, none, some, List, [], ◌∷◌, ◌++◌, map, arith,
}
use mongo_ha.Text.{Text, codes, text_eq}
use mongo_ha.Text.Case.{eq_ignore_ascii_case}
use mongo_ha.Int64.{ℤ, pos, eq_ℤ}
use mongo_ha.Bson.{Documents}
use mongo_ha.DnsProbe.{NameVerdict}
use mongo_ha.Peers.{PeerAnswer}
use mongo_ha.Mongo.{
  not_yet_initialized, invalid_replica_set_config, already_initialized, new_config_incompatible,
  configuration_in_progress, not_writable_primary, exceeded_time_limit, unauthorized,
  authentication_failed, MongoError, timed_out, authentication, command, server_selection, io,
  pool_cleared, other_error, Reply, ok, err, command_error_code, Hello, replication_enabled,
  RsMember, Active, RsStatus, not_initialized, not_a_member, active, state_primary, is_reachable,
  has_majority,
}
use mongo_ha.Mongo.Config
use mongo_ha.Mongo.Config.{Built, config_with_member_added, config_member_hosts}
use mongo_ha.Rs.Decide.{
  PeerStanding, in_set, no_set, unknown, Verdict, join_existing, safe_to_initiate, defer_to,
  undecidable, Peer, standing_of, usize_max, is_in_set, is_unknown, primary_of, peer_wins,
  outranks_us, decide,
}
use mongo_ha.Rs.Gone.{GoneTracker, new, observe, observe_reachable, is_waived}

abbrev pub state_removed : ℤ
state_removed = pos 10

-- What the loop reads from the configuration.
pub record Settings : Type 0 where
  pub node_id : Text
  pub my_has_data : Bool
  pub my_seed_rank : Option ℕ
  pub seed_rank : Text → Option ℕ
  pub dwell : Duration
  pub gone_dwell : Duration

-- The variables of the loop.
pub record Loop : Type 0 where
  pub gone : GoneTracker
  pub stable_since : Option Instant
  pub last_log : Text

abbrev pub initial : Loop
initial = record { gone = new; stable_since = none; last_log = [] }

-- The text that `wait_log_once` leaves, and whether to log.
unfoldable pub wait_log_once : Text → Text → Text × Bool
wait_log_once last reason = if text_eq last reason then (last, false) else (reason, true)

-- What this node's own mongod says of its membership.
pub data Membership : Type 0 where
  member no_config : Membership
  dropped : Text → Membership

unfoldable pub membership : RsStatus → Membership
membership not_initialized = no_config
membership not_a_member = dropped (codes "not-a-member")
membership (active a) = if eq_ℤ a.my_state state_removed then dropped (codes "removed") else member

abbrev pub peer_of : Settings → Text → PeerAnswer → Peer
peer_of s host answer = record {
  host = host;
  rank = s.seed_rank host;
  standing = standing_of answer;
}

-- The tracker after one answer.
abbrev pub observed : (Text → NameVerdict) → Instant → Text → PeerAnswer → GoneTracker → GoneTracker
observed probe now host answer g =
    if is_unknown (standing_of answer)
    then observe host (probe host) now g
    else observe_reachable host g

-- The peers of one round, without the waived ones, and the tracker afterwards.
unfoldable pub see_peers :
    Settings
    → (Text → NameVerdict)
    → Instant
    → List (Text × PeerAnswer)
    → GoneTracker
    → GoneTracker × List Peer
see_peers s probe now [] g = (g, [])
see_peers s probe now ((host, answer) ∷ rest) g =
    let (g2, peers) = see_peers s probe now rest (observed probe now host answer g) in
    (
      g2,
      if is_unknown (standing_of answer)
            && is_waived host now s.gone_dwell (observed probe now host answer g)
          then peers
          else peer_of s host answer ∷ peers,
    )

-- How `add_self_through_primary` ended.
pub data Joining : Type 0 where
  added already_named : Joining
  failed : Option ℕ → Joining

-- The calls of a round that change something outside, in order.
pub data Effect (D : Type 0) : Type 0 where
  initiate : Effect D
  reconfig : Text → D → Effect D
  node_started component_error logged : Text → Effect D

module _ (b : Documents) where
  open b use {Document}

  -- What a round learns: the answers of this node's mongod, of the peers, of the resolver and of
  -- the primary it would join through.
  pub record Round : Type 0 where
    pub status : Reply RsStatus
    pub answers : List (Text × PeerAnswer)
    pub probe : Text → NameVerdict
    pub now : Instant
    pub rs_config : Text → Reply Document
    pub rs_reconfig : Text → Document → Reply (Unit {0})
    pub rs_initiate : Reply (Unit {0})

  unfoldable pub waiting : Text → Loop → Loop × List (Effect Document)
  unfolding wait_log_once
  waiting reason l =
      let (last, log) = wait_log_once l.last_log reason in
      (
        record { gone = l.gone; stable_since = l.stable_since; last_log = last },
        if log then logged reason ∷ [] else [],
      )

  abbrev pub unstable : Loop → Loop
  unstable l = record { gone = l.gone; stable_since = none; last_log = l.last_log }

  abbrev pub joined_by : Text → Document → Reply (Unit {0}) → Joining × List (Effect Document)
  joined_by primary next (ok u) = (added, reconfig primary next ∷ [])
  joined_by primary next (err e) = (failed (command_error_code e), reconfig primary next ∷ [])

  abbrev pub joined_with : Round → Text → Built Document → Joining × List (Effect Document)
  joined_with r primary (Config.ok next) = joined_by primary next (r.rs_reconfig primary next)
  joined_with r primary (Config.err why) = (failed none, [])

  abbrev pub warn_foreign : Bool → List (Effect Document)
  warn_foreign my_has_data = if my_has_data then component_error (codes "join") ∷ [] else []

  abbrev pub joined_from :
      Settings → Round → Text → Bool → Reply Document → Joining × List (Effect Document)
  joined_from s r primary my_has_data (err e) = (failed (command_error_code e), [])
  joined_from s r primary my_has_data (ok current) =
      if any (λ h. eq_ignore_ascii_case h s.node_id) (config_member_hosts b current)
      then (already_named, [])
      else (let (j, fx) = joined_with r primary (config_with_member_added b current s.node_id) in
          (j, warn_foreign my_has_data ++ fx))

  unfoldable pub add_self_through_primary :
      Settings → Round → Text → Bool → Joining × List (Effect Document)
  add_self_through_primary s r primary my_has_data =
      joined_from s r primary my_has_data (r.rs_config primary)

  -- The codes after which the join is merely tried again.
  unfoldable pub is_busy : Option ℕ → Bool
  is_busy none = false
  is_busy (some code) =
      code == configuration_in_progress
      || code == new_config_incompatible
      || code == not_writable_primary

  abbrev pub after_join : Loop → Joining × List (Effect Document) → Loop × List (Effect Document)
  after_join l (failed code, fx) =
      let (m, log) =
        waiting (if is_busy code then codes "reconfig-retry" else codes "join-error") l in
      (m, fx ++ log)
  after_join l (j, fx) =
      (record { gone = l.gone; stable_since = l.stable_since; last_log = [] }, fx)

  -- What follows the answer to `replSetInitiate`.
  unfoldable pub after_initiate : Reply (Unit {0}) → List (Effect Document)
  after_initiate (ok u) = node_started (codes "primary") ∷ []
  after_initiate (err e) =
      if unwrap_or (command_error_code e) 0 == already_initialized
      then []
      else component_error (codes "replSetInitiate") ∷ []

  -- The branch of `SafeToInitiate` of a node that was not removed from a set.
  unfoldable pub hold_or_initiate : Settings → Round → Loop → Loop × List (Effect Document)
  hold_or_initiate s r l =
      let since = unwrap_or l.stable_since r.now in
      if ltb (duration_since r.now since) s.dwell
      then waiting (codes "dwell")
          (record { gone = l.gone; stable_since = some since; last_log = l.last_log })
      else (unstable l, initiate ∷ after_initiate r.rs_initiate)

  unfoldable pub act : Settings → Round → Bool → Loop → Verdict → Loop × List (Effect Document)
  act s r removed l (join_existing (some primary)) =
      after_join (unstable l) (add_self_through_primary s r primary (s.my_has_data && not removed))
  act s r removed l (join_existing none) = waiting (codes "no-primary") (unstable l)
  act s r removed l safe_to_initiate =
      if removed then waiting (codes "removed-no-set") l else hold_or_initiate s r l
  act s r removed l (defer_to host) = waiting (codes "defer-" ++ host) (unstable l)
  act s r removed l undecidable = waiting (codes "undecidable") (unstable l)

  -- The verdict of a round on the peers it sees.
  unfoldable pub verdict_of : Settings → Round → Loop → Verdict
  unfolding see_peers
  verdict_of s r l =
      decide s.my_has_data s.my_seed_rank (see_peers s r.probe r.now r.answers l.gone).1

  unfoldable pub seek : Settings → Round → Bool → Loop → Loop × List (Effect Document)
  seek s r removed l =
      act s r removed
        (record {
          gone = (see_peers s r.probe r.now r.answers l.gone).0;
          stable_since = l.stable_since;
          last_log = l.last_log;
        })
        (verdict_of s r l)

  -- Where a round leaves the loop.
  pub data Step : Type 0 where
    joined : Step
    again : Loop → Step

  unfoldable pub on_membership :
      Settings → Round → Loop → Membership → Step × List (Effect Document)
  unfolding seek
  on_membership s r l member = (joined, [])
  on_membership s r l no_config = let (m, fx) = seek s r false l in (again m, fx)
  on_membership s r l (dropped reason) =
      let (l2, log) = waiting reason l in let (m, fx) = seek s r true l2 in (again m, log ++ fx)

  unfoldable pub on_status :
      Settings → Round → Loop → Reply RsStatus → Step × List (Effect Document)
  on_status s r l (err e) = (again l, [])
  on_status s r l (ok status) = on_membership s r l (membership status)

  unfoldable pub round : Settings → Round → Loop → Step × List (Effect Document)
  unfolding on_status
  round s r l = on_status s r l r.status
