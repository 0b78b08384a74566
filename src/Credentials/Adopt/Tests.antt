-- ===== src/Credentials/Adopt/Tests.antt =====
-- A node that missed a rotation finds the live set's key.
use mongo_ha.Base.{if◌then◌else◌, true, Option, none, some, List, [], ◌∷◌}
use mongo_ha.Text.{Text, codes, text_eq}
use mongo_ha.Text.Trim
use mongo_ha.Maps
use mongo_ha.Peers.{RsState, state, not_ready}
use mongo_ha.Peers.Fetch.{responded, no_response}
use mongo_ha.AuthPin.{AuthPin, not_ready}
use mongo_ha.Credentials.Adopt.{PeerSet}

abbrev no_list : Text → Option (List Text)
no_list text = none

abbrev live_state : RsState
live_state = record {
  node_id = codes "mongo-1";
  set_active = true;
  set_name = none;
  my_state = none;
  is_primary = true;
  primary_host = none;
  members = [];
  members_total = 3;
  members_healthy = 3;
  voting_members = none;
  has_data = true;
  config_version = none;
  oplog_window_seconds = none;
}

abbrev peers : PeerSet
peers = record {
  peer_hosts = codes "mongo-1" ∷ [];
  answers = (codes "mongo-0", not_ready) ∷ (codes "mongo-1", state live_state) ∷ [];
  post = λ password host.
      if text_eq password (codes "new") then responded 200 (some (codes "key2 ")) else no_response;
}

abbrev old_pin : AuthPin
old_pin = record { password = codes "old"; keyfile = some (codes "key1") }
