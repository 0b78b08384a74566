-- ===== src/ReplicationMonitor/Tests.antt =====
-- One poll of a primary whose secondary falls behind.
use mongo_ha.Base.{
  All, In, from_secs, ◌≡◌, refl, ◌↔◌, inl, inr, true, false, none, some, List, [], ◌∷◌,
}
use mongo_ha.Text.{codes, text_eq, text_eq-ne}
use mongo_ha.Maps.{get, contains}
use mongo_ha.ReplicationMonitor.Dwell.{Poll, polled, view, Unbroken}
use mongo_ha.ReplicationMonitor.{
  dwell_of, MemberObservation, ReplicationSignal, falling_off_oplog, derive_signals,
}
use mongo_ha.ReplicationMonitor.Thresholds.{Crossed, derive_signals_iff}

abbrev behind_member : MemberObservation
behind_member = record {
  host = codes "mongo-1:27017";
  state_str = codes "SECONDARY";
  optime_secs = some 1000;
  is_self = false;
  healthy = true;
  dwell = from_secs 60;
}

abbrev reported : ReplicationSignal
reported = falling_off_oplog (codes "mongo-1:27017") (from_secs 3000) (from_secs 4000)

derive_signals_iff_example :
    In reported (derive_signals (some (from_secs 4000)) true (some 4000) (behind_member ∷ []))
    ↔ Crossed (some (from_secs 4000)) true (some 4000) (behind_member ∷ []) reported
derive_signals_iff_example =
    derive_signals_iff (some (from_secs 4000)) true (some 4000) (behind_member ∷ []) reported

abbrev polls : List Poll
polls =
    polled (codes "mongo-2:27017") (codes "SECONDARY") (from_secs 5)
    ∷ polled (codes "mongo-1:27017") (codes "RECOVERING") (from_secs 8)
    ∷ view (codes "mongo-1:27017" ∷ [])
    ∷ []

polls-Unbroken : All (Unbroken (codes "mongo-1:27017") (codes "RECOVERING")) polls
unfolding contains text_eq
polls-Unbroken =
    (inl (text_eq-ne (codes "mongo-2:27017") (codes "mongo-1:27017") refl), (inr refl, (refl, tt)))

unseen : dwell_of (get (codes "mongo-1:27017") []) (codes "RECOVERING") (from_secs 2) ≡ none
unfolding get
unseen = refl
