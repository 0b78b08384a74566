-- ===== src/Rs/Gone.antt =====
-- mongo-wrapper/src/rs.rs: `GoneTracker`, how long each peer's name has been authoritatively gone.
pub mod Proof
use mongo_ha.Base.{
  ltb, leb, ◌==◌, if◌then◌else◌, ltb→lt, lt→ltb, leb→le, le→leb, leb→gt, ltb→ge, ==_iff, tests,
  Bool-cases, Option-cases, and_true, or_false, is_some, is_some_and, or_else, unwrap_or,
  Option_filter, and_then, Option_map, All, Any, In, length, any, all, find, filter, count,
  position, length-append, count-le-length, find-eq-some, find-eq-none, any-eq-false, any-eq-true,
  all-eq-true, find_map, filter_map, All-append, All-In, Any-In, In-filter, In-map, Duration,
  Instant, nanos_per_sec, from_secs, from_millis, as_secs, duration_since, ℕ, zero, suc, ◌+◌, ◌-◌,
  ◌*◌, ◌/◌, ◌%◌, ◌^◌, ◌≤◌, ◌<◌, min, max, String, ◌≡◌, refl, sym, ap, ◌∙◌, ◌≢◌, ◌↔◌, ◌⊎◌, inl, inr,
  Bool, true, false, not, ◌&&◌, ◌||◌, Option, none, some, List, [], ◌∷◌, ◌++◌, map, arith,
}
use mongo_ha.Text.{Text}
use mongo_ha.Maps.{
  get, remove, insert, retain, get-nil, get-remove, get-insert, get-retain, map_laws, contains, add,
  retain_set, contains-nil, contains-add, contains-retain,
}
use mongo_ha.DnsProbe.{NameVerdict, gone, exists_or_unknown}

pub record GoneTracker : Type 0 where
  pub gone_since : List (Text × Instant)

abbrev pub new : GoneTracker
new = record { gone_since = [] }

-- `entry(host).or_insert(now)`
unfoldable pub or_insert : Text → Instant → List (Text × Instant) → List (Text × Instant)
or_insert host now m = elim (get host m) [ none ↦ insert host now m | some since ↦ m ]

unfoldable pub observe : Text → NameVerdict → Instant → GoneTracker → GoneTracker
unfolding or_insert
observe host gone now t = record { gone_since = or_insert host now t.gone_since }
observe host exists_or_unknown now t = record { gone_since = remove host t.gone_since }

unfoldable pub observe_reachable : Text → GoneTracker → GoneTracker
observe_reachable host t = record { gone_since = remove host t.gone_since }

unfoldable pub is_waived : Text → Instant → Duration → GoneTracker → Bool
is_waived host now dwell t =
    is_some_and (get host t.gone_since) (λ since. leb dwell (duration_since now since))
