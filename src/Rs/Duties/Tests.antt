-- ===== src/Rs/Duties/Tests.antt =====
-- A primary whose third member is gone, and a signal that is raised.
use mongo_ha.Base.{refl, All, from_secs, ◌≡◌, ◌≢◌, ◌⊎◌, Bool, true, false, none, List, [], ◌∷◌, ℕ}
use mongo_ha.Text.{Text, codes, text_eq}
use mongo_ha.Int64.{pos}
use mongo_ha.Bson.Sample.{
  sample, Value, Fields, fields, no_fields, int64_value, string_value, array_value, document_value,
  values_of,
}
use mongo_ha.Rs.Gone.{new, observe, observe_reachable, is_waived}
use mongo_ha.Rs.Gone.Proof.{Event, probed, run, apply}
use mongo_ha.Mongo.Config.{config_with_member_removed}
use mongo_ha.DnsProbe.{gone}
use mongo_ha.Mongo.{timed_out, ok, err, RsMember, not_a_member}
use mongo_ha.Peers.{RsState, state}
use mongo_ha.ReplicationMonitor.{ReplicationSignal, oplog_window_low}
use mongo_ha.Rs.Decide.{in_set, no_set, standing_of}
use mongo_ha.Rs.Orchestrate.{member, membership}
use mongo_ha.Rs.State.{local_rs_state, local_rs_state-standing}
use mongo_ha.Rs.Duties.{Pruning, prune_members, reconfig, pruned}
use mongo_ha.Rs.Duties.Prune.{Sound, prune_members-Sound}

abbrev row : Text → Bool → Bool → RsMember
row host healthy self = record {
  id = pos 0;
  host = host;
  state = pos 2;
  state_str = codes "SECONDARY";
  healthy = healthy;
  is_self = self;
  optime_secs = none;
}

abbrev rows : List RsMember
rows = row (codes "mongo-0:27017") true true ∷ row (codes "mongo-2:27017") false false ∷ []

abbrev departed : Text
departed = codes "mongo-2:27017"

abbrev members_value : List Value → Value
members_value vs = array_value (values_of vs)

abbrev entry : ℕ → Text → Value
entry id host = document_value (
    fields (codes "_id") (int64_value (pos id))
      (fields (codes "host") (string_value host) no_fields))

abbrev config_doc : Fields
config_doc = fields (codes "version") (int64_value (pos 4)) (
    fields (codes "members")
      (members_value (entry 0 (codes "mongo-0:27017") ∷ entry 2 departed ∷ [])) no_fields)

abbrev pruned_doc : Fields
pruned_doc =
    fields (codes "members") (members_value (entry 0 (codes "mongo-0:27017") ∷ []))
      (fields (codes "version") (int64_value (pos 5)) no_fields)

abbrev gone_for_good : Pruning sample
gone_for_good = record {
  status = err timed_out;
  now = from_secs 90;
  probe = λ host. gone;
  rs_config = λ host. ok config_doc;
  rs_reconfig = λ host d. ok tt;
}

-- Found gone for the first time by an earlier round.
abbrev earlier : List Event
earlier = probed departed gone (from_secs 20) ∷ []

prunes :
    (prune_members sample gone_for_good (from_secs 60) rows (run earlier new)).1
    ≡ reconfig departed pruned_doc ∷ pruned departed ∷ []
unfolding prune_members run apply observe observe_reachable is_waived config_with_member_removed
    text_eq mongo_ha.Maps.get mongo_ha.Maps.insert
prunes = refl

prune_members-Sound_example :
    All
      (Sound sample gone_for_good (from_secs 60) rows earlier)
      (prune_members sample gone_for_good (from_secs 60) rows (run earlier new)).1
prune_members-Sound_example = prune_members-Sound sample gone_for_good (from_secs 60) rows earlier

abbrev low : List ReplicationSignal
low = oplog_window_low (from_secs 60) ∷ []

local_rs_state-standing_example :
    (s : RsState) × (local_rs_state sample
        (codes "mongo-0:27017")
        true
        (ok not_a_member)
        (err timed_out)
        (ok none)
      ≡ ok s)
    × (((membership not_a_member ≡ member) × (standing_of (state s) ≡ in_set s.primary_host))
        ⊎ ((membership not_a_member ≢ member) × (standing_of (state s) ≡ no_set true)))
local_rs_state-standing_example =
    local_rs_state-standing sample (codes "mongo-0:27017") true not_a_member (err timed_out)
      (ok none)
