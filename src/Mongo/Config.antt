-- ===== src/Mongo/Config.antt =====
-- mongo-wrapper/src/mongo.rs: the next replica set config, built from the current one.
pub mod Laws
pub mod Members
use mongo_ha.Base.{
  ltb, leb, ◌==◌, if◌then◌else◌, ltb→lt, lt→ltb, leb→le, le→leb, leb→gt, ltb→ge, ==_iff, tests,
  Bool-cases, Option-cases, and_true, or_false, is_some, is_some_and, or_else, unwrap_or,
  Option_filter, and_then, Option_map, All, Any, In, length, any, all, find, filter, count,
  position, length-append, count-le-length, find-eq-some, find-eq-none, any-eq-false, any-eq-true,
  all-eq-true, find_map, filter_map, All-append, All-In, Any-In, In-filter, In-map, Duration,
  Instant, nanos_per_sec, from_secs, from_millis, as_secs, duration_since, ℕ, zero, suc, ◌+◌, ◌-◌,
  ◌*◌, ◌/◌, ◌%◌, ◌^◌, ◌≤◌, ◌<◌, min, max, String, ◌≡◌, refl, sym, ap, ◌∙◌, ◌≢◌, ◌↔◌, ◌⊎◌, inl, inr,
  Bool, true, false, not, ◌&&◌, ◌||◌, Option, none, some, List, [], ◌∷◌, ◌++◌, map, arith,
}
use mongo_ha.Text.{Text, codes}
use mongo_ha.Text.Case.{eq_ignore_ascii_case}
use mongo_ha.Int64.{
  ℤ, pos, negsuc, i64_max, add_one, leb_ℤ, eq_ℤ, eq_ℤ_iff, as_i32, clamp_usize, maximum, ◌≤ℤ◌,
  maximum_bounds, add_one-fresh,
}
use mongo_ha.Bson.{
  View, int32, int64, double, string, boolean, timestamp, array, document, other, Documents, as_str,
  as_bool, as_document, as_array, as_timestamp, as_f64, get_str, get_bool, get_document, get_array,
  get_timestamp, get_f64,
}

-- Why no config is built.
pub data Refusal : Type 0 where
  no_version no_members empty_members : Refusal

pub data Built (D : Type 0) : Type 0 where
  ok : D → Built D
  err : Refusal → Built D

module _ (b : Documents) where
  open b use {Bson, Document, as_i64, view, make, empty, get, insert, remove}

  abbrev pub int_of : View Bson Document b.F64 → Option ℤ
  int_of (int32 i) = some i
  int_of (int64 i) = some i
  int_of (double f) = some (as_i64 f)
  int_of _ = none

  unfoldable pub bson_int : Option Bson → Option ℤ
  bson_int none = none
  bson_int (some v) = int_of (view v)

  -- The document that `next_config` returns for the edited members.
  abbrev pub with_members : Document → ℤ → List Bson → Document
  with_members current version members =
      insert
        (remove (insert current (codes "version") (make (int64 (add_one version)))) (codes "term"))
        (codes "members") (make (array members))

  unfoldable pub next_config : Document → (List Bson → List Bson) → Built Document
  unfolding bson_int add_one
  next_config current edit = elim (bson_int (get current (codes "version"))) [
    | none ↦ err no_version
    | some version ↦ elim (get_array b current (codes "members")) [
      | none ↦ err no_members
      | some members ↦ elim (edit members) [
        | [] ↦ err empty_members
        | m ∷ ms ↦ ok (with_members current version (m ∷ ms))
      ]
    ]
  ]

  abbrev pub member_id : Bson → Option ℤ
  member_id m = and_then (as_document b m) (λ d. bson_int (get d (codes "_id")))

  abbrev pub member_host : Bson → Option Text
  member_host m = and_then (as_document b m) (λ d. get_str b d (codes "host"))

  unfoldable pub next_id : List Bson → ℤ
  unfolding maximum add_one
  next_id members = unwrap_or (Option_map add_one (maximum (filter_map member_id members))) (pos 0)

  unfoldable pub new_member : ℤ → Text → Bson
  new_member id host = make (
      document (
        insert
          (insert
            (insert (insert empty (codes "_id") (make (int64 id))) (codes "host")
              (make (string host)))
            (codes "priority") (make (int32 (pos 1))))
          (codes "votes") (make (int32 (pos 1)))))

  unfoldable pub config_with_member_added : Document → Text → Built Document
  unfolding next_config next_id new_member
  config_with_member_added current host =
      next_config current (λ members. members ++ new_member (next_id members) host ∷ [])

  -- The test of `retain`: a member with no readable host stays.
  unfoldable pub stays : Text → Bson → Bool
  unfolding eq_ignore_ascii_case
  stays host m =
      unwrap_or (Option_map (λ h. not (eq_ignore_ascii_case h host)) (member_host m)) true

  unfoldable pub config_with_member_removed : Document → Text → Built Document
  unfolding next_config stays
  config_with_member_removed current host = next_config current (filter (stays host))

  unfoldable pub config_member_hosts : Document → List Text
  config_member_hosts config =
      unwrap_or (Option_map (filter_map member_host) (get_array b config (codes "members"))) []
