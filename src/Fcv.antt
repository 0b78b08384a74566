-- ===== src/Fcv.antt =====
-- mongo-wrapper/src/fcv.rs: the raise of the feature compatibility version.
pub mod Raise
pub mod Series
mod Tests
use mongo_ha.Base.{
  ltb, leb, ◌==◌, if◌then◌else◌, ltb→lt, lt→ltb, leb→le, le→leb, leb→gt, ltb→ge, ==_iff, tests,
  Bool-cases, Option-cases, and_true, or_false, is_some, is_some_and, or_else, unwrap_or,
  Option_filter, and_then, Option_map, if_elim, All, Any, In, length, any, all, find, filter, count,
  position, length-append, count-le-length, find-eq-some, find-eq-none, any-eq-false, any-eq-true,
  all-eq-true, find_map, filter_map, All-append, All-In, Any-In, In-filter, In-map, List-cases,
  filter_map-append, filter_map-filter, filter-append, All-of_In, filter_map-In, In-filter_map,
  In-append_left, In-append_right, In-append, In-guard, guard-In, append_nil, append_assoc,
  Duration, Instant, nanos_per_sec, from_secs, from_millis, as_secs, duration_since, ℕ, zero, suc,
  ◌+◌, ◌-◌, ◌*◌, ◌/◌, ◌%◌, ◌^◌, ◌≤◌, ◌<◌, min, max, String, ◌≡◌, refl, sym, ap, ◌∙◌, ◌≢◌, ◌↔◌, ◌⊎◌,
  inl, inr, Bool, true, false, not, ◌&&◌, ◌||◌, Option, none, some, List, [], ◌∷◌, ◌++◌, map, arith,
}
use mongo_ha.Text.{Text, codes, text_eq}
use mongo_ha.Text.Trim.{trim}
use mongo_ha.Text.Split.{split}
use mongo_ha.Text.Number.{is_digit, parse_unsigned, decimal}
use mongo_ha.Mongo.{
  not_yet_initialized, invalid_replica_set_config, already_initialized, new_config_incompatible,
  configuration_in_progress, not_writable_primary, exceeded_time_limit, unauthorized,
  authentication_failed, MongoError, timed_out, authentication, command, server_selection, io,
  pool_cleared, other_error, Reply, ok, err, command_error_code, Hello, replication_enabled,
  RsMember, Active, RsStatus, not_initialized, not_a_member, active, state_primary, is_reachable,
  has_majority,
}

pub record Fcv : Type 0 where
  pub version : Text
  pub target : Option Text

pub data Role : Type 0 where
  standalone primary not_primary : Role

pub record MemberSeries : Type 0 where
  pub host : Text
  pub healthy : Bool
  pub series : Option Text

-- The texts that are logged, by what they are made of.
pub data Reason : Type 0 where
  no_running_series no_current_series unhealthy unreported : Text → Reason
  in_flight not_the_primary : Text → Text → Reason
  above : Text → ℕ × ℕ → Reason
  rolling : Text → Option Text → Text → Reason
  no_status : Reason

pub data Decision : Type 0 where
  up_to_date : Decision
  raise_to : Text → Decision
  wait refuse : Reason → Decision

abbrev pub Series : Type 0
Series = ℕ × ℕ

-- `<` and `==` on pairs.
abbrev pub series_ltb : Series → Series → Bool
series_ltb (a, b) (c, d) = ltb a c || (a == c && ltb b d)

abbrev pub series_eq : Series → Series → Bool
series_eq (a, b) (c, d) = a == c && b == d

-- `split(|c| !c.is_ascii_digit()).next()`
unfoldable pub leading_digits : Text → Text
leading_digits [] = []
leading_digits (c ∷ s) = let rest = leading_digits s in if is_digit c then c ∷ rest else []

abbrev pub pair_of : Option ℕ → Option ℕ → Option Series
pair_of (some major) (some minor) = some (major, minor)
pair_of _ _ = none

abbrev pub series_of_pieces : List Text → Option Series
series_of_pieces (major ∷ minor ∷ rest) =
    pair_of (parse_unsigned (2 ^ 32) major) (parse_unsigned (2 ^ 32) (leading_digits minor))
series_of_pieces _ = none

unfoldable pub parse_series : Text → Option Series
unfolding leading_digits
parse_series version = series_of_pieces (split b'.' (trim version))

-- `format!("{major}.{minor}")`
unfoldable pub series_text : Series → Text
series_text (major, minor) = decimal major ++ b'.' ∷ decimal minor

unfoldable pub series_of : Text → Option Text
unfolding parse_series series_text
series_of version = Option_map series_text (parse_series version)

-- The member's series is unparsable or behind.
unfoldable pub is_behind : Series → MemberSeries → Bool
is_behind running m = elim (and_then m.series parse_series) [
  | none ↦ true
  | some s ↦ series_ltb s running
]

-- What the other members allow.
abbrev pub on_members :
    Series → Option MemberSeries → Option MemberSeries → Option MemberSeries → Decision
on_members running (some m) missing behind = wait (unhealthy m.host)
on_members running none (some m) behind = wait (unreported m.host)
on_members running none none (some m) = wait (rolling m.host m.series (series_text running))
on_members running none none none = raise_to (series_text running)

abbrev pub on_role : Series → Fcv → Role → List MemberSeries → Decision
on_role running fcv standalone members = raise_to (series_text running)
on_role running fcv not_primary members = wait (not_the_primary fcv.version (series_text running))
on_role running fcv primary members =
    on_members running (find (λ m. not m.healthy) members)
      (find (λ m. not (is_some m.series)) members) (find (is_behind running) members)

abbrev pub compared : Series → Series → Fcv → Role → List MemberSeries → Decision
compared running current fcv role members =
    if series_eq current running
    then up_to_date
    else (if series_ltb running current
        then refuse (above fcv.version running)
        else on_role running fcv role members)

abbrev pub settled : Series → Series → Fcv → Option Text → Role → List MemberSeries → Decision
settled running current fcv (some target) role members = wait (in_flight target fcv.version)
settled running current fcv none role members = compared running current fcv role members

abbrev pub parsed : Text → Fcv → Role → List MemberSeries → Option Series → Option Series → Decision
parsed running fcv role members none current = refuse (no_running_series running)
parsed running fcv role members (some r) none = refuse (no_current_series fcv.version)
parsed running fcv role members (some r) (some c) = settled r c fcv fcv.target role members

unfoldable pub decide : Text → Fcv → Role → List MemberSeries → Decision
decide running fcv role members =
    parsed running fcv role members (parse_series running) (parse_series fcv.version)

-- The replies that a round reads: `buildInfo`, the parameter, `hello`, the status, and the
-- `buildInfo` of each peer.
pub record Facts : Type 0 where
  pub running : Reply Text
  pub fcv : Reply Fcv
  pub hello : Reply Hello
  pub status : Reply RsStatus
  pub peer_series : Text → Reply Text

abbrev pub ok_value : Reply Text → Option Text
ok_value (ok v) = some v
ok_value (err e) = none

unfoldable pub member_series : Facts → RsMember → MemberSeries
member_series f m = record {
  host = m.host;
  healthy = m.healthy;
  series = if m.healthy then ok_value (f.peer_series m.host) else none;
}

abbrev pub on_status : Facts → Text → Fcv → Reply RsStatus → Reply Decision
on_status f running fcv (err e) = err e
on_status f running fcv (ok (active a)) =
    ok (decide running fcv primary (map (member_series f) (filter (λ m. not m.is_self) a.members)))
on_status f running fcv (ok _) = ok (wait no_status)

abbrev pub on_hello : Facts → Text → Fcv → Reply Hello → Reply Decision
on_hello f running fcv (err e) = err e
on_hello f running fcv (ok h) =
    if h.is_writable_primary
    then on_status f running fcv f.status
    else ok (decide running fcv not_primary [])

abbrev pub on_fcv : Bool → Facts → Text → Reply Fcv → Reply Decision
on_fcv rs_enabled f running (err e) = err e
on_fcv rs_enabled f running (ok fcv) =
    if rs_enabled then on_hello f running fcv f.hello else ok (decide running fcv standalone [])

abbrev pub on_running : Bool → Facts → Reply Text → Reply Decision
on_running rs_enabled f (err e) = err e
on_running rs_enabled f (ok running) = on_fcv rs_enabled f running f.fcv

unfoldable pub round : Bool → Facts → Reply Decision
unfolding decide member_series
round rs_enabled f = on_running rs_enabled f f.running

-- The read after the command; the reply to the command itself is only logged.
unfoldable pub raise : Text → Reply Fcv → Reply (Unit {0})
raise to (err e) = err e
raise to (ok after) =
    if text_eq after.version to && not (is_some after.target) then ok tt else err other_error

abbrev pub wait_interval : Duration
wait_interval = from_secs 30

abbrev pub default_recheck : Duration
default_recheck = from_secs 600

-- `FCV_RECHECK_SECONDS`, or the default.
unfoldable pub recheck_interval : Option Text → Duration
recheck_interval value =
    unwrap_or
      (Option_map from_secs
        (Option_filter (λ s. ltb 0 s) (and_then value (λ v. parse_unsigned (2 ^ 64) (trim v)))))
      default_recheck

pub record Reconcile : Type 0 where
  pub last_reason : Text
  pub last_error : Text

pub data Effect : Type 0 where
  set_fcv : Text → Effect
  component_error : Text → Text → Effect

-- The texts of a reason and of an error are the formatter's.
module _ (render : Reason → Text) (display : MongoError → Text) where
  unfoldable pub report : Text → Text → Reconcile → Reconcile × List Effect
  report context error l =
      if text_eq l.last_error error
      then (l, [])
      else (record l { last_error = error }, component_error (codes "fcv-" ++ context) error ∷ [])

  abbrev pub cleared : Reconcile
  cleared = record { last_reason = []; last_error = [] }

  abbrev pub after_raise :
      Text → Duration → Reconcile → Reply (Unit {0}) → Reconcile × Duration × List Effect
  after_raise to recheck l (ok u) = (cleared, recheck, set_fcv to ∷ [])
  after_raise to recheck l (err e) =
      let (l2, fx) = report (codes "raise") (display e) l in (l2, wait_interval, set_fcv to ∷ fx)

  -- One pass of the loop, given the decision and the read after a raise, and how long it sleeps.
  unfoldable pub reconcile :
      Duration → Reply Decision → Reply Fcv → Reconcile → Reconcile × Duration × List Effect
  unfolding raise report
  reconcile recheck (ok up_to_date) after l = (cleared, recheck, [])
  reconcile recheck (ok (raise_to to)) after l = after_raise to recheck l (raise to after)
  reconcile recheck (ok (wait reason)) after l = (
    if text_eq l.last_reason (render reason) then l else record l { last_reason = render reason },
    wait_interval,
    [],
  )
  reconcile recheck (ok (refuse reason)) after l =
      let (l2, fx) = report (codes "decide") (render reason) l in (l2, recheck, fx)
  reconcile recheck (err e) after l =
      let (l2, fx) = report (codes "read") (display e) l in (l2, wait_interval, fx)
