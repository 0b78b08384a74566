-- ===== src/Rs/Tests.antt =====
-- The orchestration on concrete inputs: a deploy of two nodes, and a peer that is gone for good.
use mongo_ha.Base.{
  All, In, Instant, from_secs, ◌-◌, ◌≤◌, ◌≡◌, refl, ◌≢◌, ◌↔◌, ◌⊎◌, inl, inr, true, false, none,
  some, List, [], ◌∷◌, arith,
}
use mongo_ha.Text.{Text, codes, text_eq, text_eq-ne}
use mongo_ha.Maps.{get, remove, insert}
use mongo_ha.Bson.Sample.{sample}
use mongo_ha.DnsProbe.{gone}
use mongo_ha.Peers.{unreachable}
use mongo_ha.Mongo.{ok, err, not_initialized, timed_out}
use mongo_ha.Rs.Decide.{
  in_set, unknown, join_existing, safe_to_initiate, defer_to, Peer, standing_of, decide,
}
use mongo_ha.Rs.Decide.Spec.{Yields, decide-safe_iff}
use mongo_ha.Rs.Decide.Election.{Node, as_peer, peers_of, Initiates, one_initiator, some_initiator}
use mongo_ha.Rs.Gone.{or_insert, new, observe, observe_reachable, is_waived}
use mongo_ha.Rs.Gone.Proof.{Event, probed, reachable, apply, run, GoneSince, waived-GoneSince}
use mongo_ha.Rs.Orchestrate.{
  Settings, Loop, initial, wait_log_once, membership, see_peers, Round, waiting, hold_or_initiate,
  act, verdict_of, seek, again, on_membership, on_status, round,
}
use mongo_ha.Rs.Orchestrate.Initiation.{calls_initiate}
use mongo_ha.Rs.Orchestrate.Stability.{start, step, Held}
use mongo_ha.Rs.Orchestrate.Waivers.{history, calls_initiate-Justified, EachJustified}

abbrev holder : Node
holder = record { host = codes "mongo-1"; rank = some 1; has_data = true }

abbrev fresh : Node
fresh = record { host = codes "mongo-0"; rank = some 0; has_data = false }

abbrev two_nodes : List Node
two_nodes = holder ∷ fresh ∷ []

-- The adopted volume initiates, although the fresh node is declared first.
holder-Initiates : Initiates two_nodes holder
unfolding decide peers_of text_eq
holder-Initiates = refl

hosts_differ : holder.host ≢ fresh.host
unfolding text_eq
hosts_differ = text_eq-ne holder.host fresh.host refl

one_initiator_example : ¬ Initiates two_nodes fresh
one_initiator_example =
    one_initiator two_nodes holder fresh (inl refl) (inr (inl refl)) hosts_differ
      (λ e. omega (arith, e)) holder-Initiates

some_initiator_example : (w : Node) × In w two_nodes × Initiates two_nodes w
some_initiator_example = some_initiator holder (fresh ∷ [])

abbrev fresh_peers : List Peer
fresh_peers = as_peer fresh ∷ []

decide-safe_iff_example :
    (decide true (some 1) fresh_peers ≡ safe_to_initiate) ↔ All (Yields true (some 1)) fresh_peers
decide-safe_iff_example = decide-safe_iff true (some 1) fresh_peers

abbrev joined_peer : Peer
joined_peer = record {
  host = codes "mongo-2";
  rank = none;
  standing = in_set (some (codes "mongo-0"));
}

abbrev mixed_peers : List Peer
mixed_peers =
    record { host = codes "mongo-1"; rank = some 1; standing = unknown } ∷ joined_peer ∷ []

joins : decide true (some 0) mixed_peers ≡ join_existing (some (codes "mongo-0"))
unfolding decide
joins = refl

defers : decide false (some 0) (as_peer holder ∷ []) ≡ defer_to (codes "mongo-1")
unfolding decide
defers = refl

abbrev departed : Text
departed = codes "mongo-2"

-- Reachable, then gone twice; another peer is seen in between.
abbrev departure : List Event
departure =
    reachable departed
    ∷ probed departed gone (from_secs 10)
    ∷ reachable (codes "mongo-1")
    ∷ probed departed gone (from_secs 40)
    ∷ []

departure_waived : is_waived departed (from_secs 40) (from_secs 30) (run departure new) ≡ true
unfolding is_waived run apply observe observe_reachable text_eq get remove insert or_insert
departure_waived = refl

waived-GoneSince_example :
    (t : Instant) × GoneSince departed t departure × (from_secs 30 ≤ from_secs 40 - t)
waived-GoneSince_example =
    waived-GoneSince departed departure (from_secs 40) (from_secs 30) departure_waived

others_differ : departed ≢ codes "mongo-1"
unfolding text_eq
others_differ = text_eq-ne departed (codes "mongo-1") refl

abbrev settings : Settings
settings = record {
  node_id = codes "mongo-1:27017";
  my_has_data = true;
  my_seed_rank = some 1;
  seed_rank = λ host. some 0;
  dwell = from_secs 20;
  gone_dwell = 0;
}

-- One peer does not answer, and its name is gone.
abbrev alone : Instant → Round sample
alone t = record {
  status = ok not_initialized;
  answers = (departed, unreachable) ∷ [];
  probe = λ host. gone;
  now = t;
  rs_config = λ host. err timed_out;
  rs_reconfig = λ host d. err timed_out;
  rs_initiate = ok tt;
}

abbrev holding : Loop
holding = record {
  gone = record { gone_since = (departed, 0) ∷ [] };
  stable_since = some 0;
  last_log = codes "dwell";
}

first_round : (round sample settings (alone 0) initial).0 ≡ again holding
unfolding round membership seek verdict_of see_peers act hold_or_initiate waiting wait_log_once
    standing_of observe is_waived text_eq on_membership on_status decide get insert or_insert
first_round = refl

second_round : calls_initiate sample (round sample settings (alone (from_secs 25)) holding).1 ≡ true
unfolding round membership seek verdict_of see_peers act hold_or_initiate waiting wait_log_once
    standing_of observe is_waived text_eq on_membership on_status decide get or_insert
second_round = refl

calls_initiate-Justified_example :
    (ok not_initialized ≡ ok not_initialized)
    × ((from_secs 20 ≡ 0)
        ⊎ ((t : Instant) × Held sample settings t (alone 0 ∷ []) holding
            × (from_secs 20 ≤ from_secs 25 - t)))
    × EachJustified sample settings
        (alone (from_secs 25))
        (history sample settings (alone 0 ∷ []))
        ((departed, unreachable) ∷ [])
calls_initiate-Justified_example =
    calls_initiate-Justified sample settings (alone (from_secs 25))
      (step [] initial (alone 0) start first_round) second_round
