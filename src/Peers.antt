-- ===== src/Peers.antt =====
-- mongo-wrapper/src/peers.rs: what one node answers on /rs/state, and how a query of it ended.
-- The HTTP exchange itself is outside the model: a query's outcome is an input.
pub mod Fetch
use mongo_ha.Base.{ℕ, Bool, Option, List}
use mongo_ha.Text.{Text}
use mongo_ha.Int64.{ℤ}

pub record RsState : Type 0 where
  pub node_id : Text
  pub set_active : Bool
  pub set_name : Option Text
  pub my_state : Option Text
  pub is_primary : Bool
  pub primary_host : Option Text
  pub members : List Text
  pub members_total : ℕ
  pub members_healthy : ℕ
  pub voting_members : Option ℕ
  pub has_data : Bool
  pub config_version : Option ℤ
  pub oplog_window_seconds : Option ℕ

pub data PeerAnswer : Type 0 where
  state : RsState → PeerAnswer
  not_ready unreachable : PeerAnswer
