-- ===== src/Rs/Duties/Alerts.antt =====
-- When a replication signal is sent.
use mongo_ha.Base.{
  if◌then◌else◌, Bool-cases, any, count, ◌≡◌, refl, ◌∙◌, inl, inr, Bool, false, not, ◌&&◌, ◌||◌,
  List, [], ◌∷◌, arith,
}
use mongo_ha.Text.{Text, text_eq, text_eq_iff, text_eq_refl}
use mongo_ha.Maps.{contains, add, contains-nil, contains-add, contains-retain}
use mongo_ha.ReplicationMonitor.{ReplicationSignal, dedupe_key}
use mongo_ha.Rs.Duties.{
  Duty, reconfig, node_started, role_changed, pruned, alert, auth_read, raise_alerts, alert_round,
}

-- Some signal of the poll has the key.
abbrev pub active_key : List ReplicationSignal → Text → Bool
active_key signals k = any (λ s. text_eq (dedupe_key s) k) signals

module _ (D : Type 0) where
  -- The call sends a signal with the key.
  abbrev pub sends : Text → Duty D → Bool
  sends k (alert s) = text_eq (dedupe_key s) k
  sends k (reconfig host d) = false
  sends k (node_started r) = false
  sends k (role_changed r q) = false
  sends k (pruned host) = false
  sends k auth_read = false

  alerted-raise_alerts :
      (ss : List ReplicationSignal) (al li : List Text) (k : Text)
      → contains k (raise_alerts D ss al li).0 ≡ (contains k al || active_key ss k)
  unfolding raise_alerts
  alerted-raise_alerts [] al li k = ground arith
  alerted-raise_alerts (s ∷ ss) al li k =
      alerted-raise_alerts ss (add (dedupe_key s) al) (add (dedupe_key s) li) k
      ∙ ground (arith, contains-add (dedupe_key s) k al)

  live-raise_alerts :
      (ss : List ReplicationSignal) (al li : List Text) (k : Text)
      → contains k (raise_alerts D ss al li).1 ≡ (contains k li || active_key ss k)
  unfolding raise_alerts
  live-raise_alerts [] al li k = ground arith
  live-raise_alerts (s ∷ ss) al li k =
      live-raise_alerts ss (add (dedupe_key s) al) (add (dedupe_key s) li) k
      ∙ ground (arith, contains-add (dedupe_key s) k li)

  sent-raise_alerts :
      (ss : List ReplicationSignal) (al li : List Text) (k : Text)
      → count (sends k) (raise_alerts D ss al li).2
        ≡ (if active_key ss k && not (contains k al) then 1 else 0)
  unfolding raise_alerts
  sent-raise_alerts [] al li k = refl
  sent-raise_alerts (s ∷ ss) al li k =
      go (sent-raise_alerts ss (add (dedupe_key s) al) (add (dedupe_key s) li) k)
    where
      go :
          count (sends k) (raise_alerts D ss (add (dedupe_key s) al) (add (dedupe_key s) li)).2
            ≡ (if active_key ss k && not (contains k (add (dedupe_key s) al)) then 1 else 0)
          → count (sends k) (raise_alerts D (s ∷ ss) al li).2
            ≡ (if active_key (s ∷ ss) k && not (contains k al) then 1 else 0)
      go rec = elim (Bool-cases (text_eq (dedupe_key s) k)) [
        | inl e ↦ rw (← (text_eq_iff (dedupe_key s) k).0 e) (
            ground (
              arith,
              rec,
              e,
              (text_eq_iff (dedupe_key s) k).0 e,
              text_eq_refl (dedupe_key s),
              contains-add (dedupe_key s) k al,
              contains-add (dedupe_key s) (dedupe_key s) al,
            ))
        | inr e ↦ ground (arith, rec, e, contains-add (dedupe_key s) k al)
      ]

  -- A key is alerted after a poll exactly when one of the poll's signals has it: a signal that
  -- has cleared is forgotten, and can be sent again.
  pub alerted_iff :
      (signals : List ReplicationSignal) (alerted : List Text) (k : Text)
      → contains k (alert_round D signals alerted).0 ≡ active_key signals k
  unfolding alert_round
  alerted_iff signals alerted k =
      contains-retain (λ j. contains j (raise_alerts D signals alerted []).1) k
        (raise_alerts D signals alerted []).0
      ∙ ground (
        arith,
        alerted-raise_alerts signals alerted [] k,
        live-raise_alerts signals alerted [] k,
        contains-nil k,
      )

  -- A poll sends one signal for each key that is active and was not alerted before, and none for any
  -- other key.
  pub sent_once :
      (signals : List ReplicationSignal) (alerted : List Text) (k : Text)
      → count (sends k) (alert_round D signals alerted).1
        ≡ (if active_key signals k && not (contains k alerted) then 1 else 0)
  unfolding alert_round
  sent_once signals alerted k = sent-raise_alerts signals alerted [] k
