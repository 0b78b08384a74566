-- ===== src/Mongo/Tests.antt =====
-- The reads and writes of mongod's state on concrete inputs.
use mongo_ha.Base.{
  ◌==◌, if◌then◌else◌, All, filter, from_secs, ℕ, ◌≡◌, refl, ◌≢◌, Bool, true, false, none, some,
  List, [], ◌∷◌, ◌++◌, arith,
}
use mongo_ha.Text.{Text, codes, text_eq}
use mongo_ha.Text.Case.{eq_ignore_ascii_case}
use mongo_ha.Int64.{pos, i64_max, add_one, leb_ℤ, maximum}
use mongo_ha.Bson.{array, get_array}
use mongo_ha.Bson.Sample.{
  Value, Fields, no_fields, fields, int32_value, int64_value, string_value, document_value,
  value_of, sample, field,
}
use mongo_ha.Mongo.{authentication, Reply, ok, err, RsMember, has_majority}
use mongo_ha.Mongo.Config
use mongo_ha.Mongo.Majority.{Shared, majorities_overlap}
use mongo_ha.Mongo.Config.{
  Refusal, no_version, no_members, empty_members, Built, ok, err, int_of, bson_int, with_members,
  next_config, member_id, member_host, next_id, new_member, config_with_member_added, stays,
  config_with_member_removed, config_member_hosts,
}
use mongo_ha.Mongo.Config.Laws.{NextConfig, next_config-NextConfig}
use mongo_ha.Mongo.Recovery.{auth, new_policy, on_failure, Pool, Mongo, recovering}
use mongo_ha.Mongo.Recovery.Throttle
use mongo_ha.Mongo.Recovery.Throttle.{
  IsBounded, Outcome, succeeded, failures, throttled, transport_patience, auth_rebuilds_at_once,
  run-IsBounded,
}
use mongo_ha.Mongo.Recovery.Pooled.{IsCurrent, recovering-IsCurrent}

abbrev first_host : Text
first_host = codes "mongo-0:27017"

abbrev second_host : Text
second_host = codes "mongo-1:27017"

abbrev member_value : ℕ → Text → Value
member_value id host = document_value (
    fields (codes "_id") (int32_value (pos id))
      (fields (codes "host") (string_value host) no_fields))

abbrev sample_members : List Value
sample_members = member_value 0 first_host ∷ member_value 1 second_host ∷ []

abbrev config_of_members : List Value → Fields
config_of_members members = fields (codes "version") (int32_value (pos 4)) (
    fields (codes "term") (int64_value (pos 7))
      (fields (codes "members") (value_of (array members)) no_fields))

abbrev sample_config : Fields
sample_config = config_of_members sample_members

abbrev after_removal : Fields
after_removal = with_members sample sample_config (pos 4) (member_value 0 first_host ∷ [])

removal_built :
    config_with_member_removed sample sample_config (codes "MONGO-1:27017")
    ≡ Config.ok after_removal
unfolding config_with_member_removed next_config bson_int stays text_eq eq_ignore_ascii_case
removal_built = refl

abbrev third_host : Text
third_host = codes "mongo-2:27017"

abbrev after_addition : Fields
after_addition =
    with_members sample sample_config (pos 4)
      (sample_members ++ new_member sample (pos 2) third_host ∷ [])

addition_built : config_with_member_added sample sample_config third_host ≡ Config.ok after_addition
unfolding config_with_member_added next_config bson_int text_eq next_id maximum add_one leb_ℤ
addition_built = refl

next_config-NextConfig_example :
    NextConfig sample sample_config after_removal (filter (stays sample (codes "MONGO-1:27017")))
next_config-NextConfig_example =
    next_config-NextConfig sample sample_config (filter (stays sample (codes "MONGO-1:27017")))
      after_removal (unfold config_with_member_removed in removal_built)

ids_small : All (λ m. member_id sample m ≢ some (pos i64_max)) sample_members
unfolding bson_int text_eq
ids_small = (λ e. ground (arith, e), (λ e. ground (arith, e), tt))

only_first :
    All
      (λ m.
        (h : Text) × (member_host sample m ≡ some h) × (eq_ignore_ascii_case h first_host ≡ true))
      (member_value 0 first_host ∷ [])
unfolding text_eq eq_ignore_ascii_case
only_first = ((first_host, refl, refl), tt)

lone_version :
    bson_int sample (field (config_of_members (member_value 0 first_host ∷ [])) (codes "version"))
    ≡ some (pos 4)
unfolding bson_int text_eq
lone_version = refl

lone_members :
    get_array sample (config_of_members (member_value 0 first_host ∷ [])) (codes "members")
    ≡ some (member_value 0 first_host ∷ [])
unfolding text_eq
lone_members = refl

abbrev seen_member : Text → Bool → Bool → RsMember
seen_member host healthy self = record {
  id = pos 0;
  host = host;
  state = pos 2;
  state_str = codes "SECONDARY";
  healthy = healthy;
  is_self = self;
  optime_secs = none;
}

abbrev view_of_first : List RsMember
view_of_first =
    seen_member first_host true true
    ∷ seen_member second_host false false
    ∷ seen_member third_host true false
    ∷ []

abbrev view_of_second : List RsMember
view_of_second =
    seen_member first_host false false
    ∷ seen_member second_host true true
    ∷ seen_member third_host true false
    ∷ []

first_majority : has_majority view_of_first ≡ true
unfolding has_majority
first_majority = refl

second_majority : has_majority view_of_second ≡ true
unfolding has_majority
second_majority = refl

majorities_overlap_example : Shared view_of_first view_of_second
majorities_overlap_example =
    majorities_overlap view_of_first view_of_second refl first_majority second_majority

start_IsBounded : IsBounded new_policy
start_IsBounded = record { at_least = omega arith; at_most = omega arith }

rebuilds_first : (on_failure auth true 0 new_policy).1 ≡ true
unfolding on_failure
rebuilds_first = refl

window_first : (on_failure auth true 0 new_policy).0.backoff ≡ from_secs 30
unfolding on_failure
window_first = refl

throttled_example :
    (on_failure auth true (from_secs 29) (
      Throttle.run
        (failures auth ((true, from_secs 3) ∷ []))
        (on_failure auth true 0 new_policy).0)).1
    ≡ false
throttled_example =
    throttled auth true 0 new_policy ((true, from_secs 3) ∷ []) true (from_secs 29) rebuilds_first
      (omega (arith, window_first), tt) (omega (arith, window_first))

abbrev rotated : Mongo
rotated = record {
  password = codes "new";
  pool = record { client = codes "new"; generation = 3 };
  recovery = new_policy;
}

-- The first login of a session fails, the rebuilt client's passes.
abbrev stale_session : Pool → Reply ℕ
stale_session p = if p.generation == 3 then err authentication else ok 42

recovering-IsCurrent_example : IsCurrent (recovering true stale_session (λ m. m) 0 1 rotated).0
recovering-IsCurrent_example =
    recovering-IsCurrent true stale_session (λ m. m) 0 1 rotated (λ n h. h) refl
