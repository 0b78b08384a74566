-- ===== src/ReplicationMonitor/Keys.antt =====
-- The dedupe key of a signal identifies its kind and its member, and nothing else.
use mongo_ha.Base.{◌≡◌, refl, sym, ap, ◌∙◌, ◌↔◌, ◌++◌, arith}
use mongo_ha.Text.{Text, codes}
use mongo_ha.ReplicationMonitor.{
  ReplicationSignal, stuck_in_state, falling_off_oplog, oplog_window_low, dedupe_key,
}

-- What an incident is about.
pub data Subject : Type 0 where
  stuck falling_off : Text → Subject
  window_low : Subject

abbrev pub subject : ReplicationSignal → Subject
subject (stuck_in_state host state stuck_for) = stuck host
subject (falling_off_oplog host lag window) = falling_off host
subject (oplog_window_low window) = window_low

abbrev key_of : Subject → Text
key_of (stuck host) = codes "stuck:" ++ host
key_of (falling_off host) = codes "falling-off:" ++ host
key_of window_low = codes "oplog-window-low"

key_of-injective : (s t : Subject) → key_of s ≡ key_of t → s ≡ t
key_of-injective (stuck a) (stuck b) e = ground (arith, e)
key_of-injective (stuck a) (falling_off b) e = absurd (ground (arith, e))
key_of-injective (stuck a) window_low e = absurd (ground (arith, e))
key_of-injective (falling_off a) (stuck b) e = absurd (ground (arith, e))
key_of-injective (falling_off a) (falling_off b) e = ground (arith, e)
key_of-injective (falling_off a) window_low e = absurd (ground (arith, e))
key_of-injective window_low (stuck b) e = absurd (ground (arith, e))
key_of-injective window_low (falling_off b) e = absurd (ground (arith, e))
key_of-injective window_low window_low e = refl

dedupe_key-eq : (s : ReplicationSignal) → dedupe_key s ≡ key_of (subject s)
unfolding dedupe_key
dedupe_key-eq (stuck_in_state host state stuck_for) = refl
dedupe_key-eq (falling_off_oplog host lag window) = refl
dedupe_key-eq (oplog_window_low window) = refl

-- Two signals share a dedupe key exactly when they are of one kind and about one member.
pub dedupe_key_iff :
    (s t : ReplicationSignal) → (dedupe_key s ≡ dedupe_key t) ↔ (subject s ≡ subject t)
dedupe_key_iff s t = (
  λ e. key_of-injective (subject s) (subject t) (sym (dedupe_key-eq s) ∙ e ∙ dedupe_key-eq t),
  λ e. dedupe_key-eq s ∙ ap key_of e ∙ sym (dedupe_key-eq t),
)
