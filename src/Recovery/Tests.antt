-- ===== src/Recovery/Tests.antt =====
-- A recovery boot that replays, and one that finds no oplog.
use mongo_ha.Base.{from_secs, ◌≡◌, refl, ◌↔◌, inl, inr, true, false, some, [], ◌∷◌, arith}
use mongo_ha.Text.{codes}
use mongo_ha.Text.Trim
use mongo_ha.Text.Number
use mongo_ha.Recovery.{
  replayed, no_oplog, ReplayResult, running, exited, stop_cleanly, Recovery,
  replay_oplog_as_standalone,
}
use mongo_ha.Recovery.Verdict.{IsCheckpointed}
use mongo_ha.Recovery.Outcome.{replay-IsCheckpointed_iff, stop_cleanly_ends}

abbrev replaying : Recovery
replaying = record {
  spawned = true;
  piped = true;
  turns = (running, false) ∷ (running, true) ∷ [];
  lines = [];
  has_pid = true;
  signalled = true;
  stop_turns = (running, from_secs 1) ∷ (exited (some 0), from_secs 2) ∷ [];
}

abbrev empty_oplog : Recovery
empty_oplog = record {
  spawned = true;
  piped = true;
  turns = (running, false) ∷ (exited (some 14), false) ∷ [];
  lines = codes "{\"s\":\"F\", \"id\":31364, \"ctx\":\"initandlisten\"}" ∷ [];
  has_pid = true;
  signalled = true;
  stop_turns = [];
}

replaying_ends : replay_oplog_as_standalone replaying ≡ some (inl replayed)
unfolding replay_oplog_as_standalone
replaying_ends = refl

empty_oplog_ends : replay_oplog_as_standalone empty_oplog ≡ some (inl no_oplog)
unfolding replay_oplog_as_standalone Number.parse_unsigned Trim.trim_start
empty_oplog_ends = refl

replay-IsCheckpointed_iff_example :
    (replay_oplog_as_standalone replaying ≡ some (inl replayed)) ↔ IsCheckpointed replaying
replay-IsCheckpointed_iff_example = replay-IsCheckpointed_iff replaying

stop_cleanly_ends_example :
    (v : ReplayResult) × (stop_cleanly true true
        ((running, from_secs 1) ∷ (running, from_secs 1800) ∷ [])
      ≡ some v)
stop_cleanly_ends_example =
    stop_cleanly_ends true true ((running, from_secs 1) ∷ (running, from_secs 1800) ∷ [])
      (inr (inl (omega arith)))
