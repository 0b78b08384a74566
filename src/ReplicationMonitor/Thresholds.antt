-- ===== src/ReplicationMonitor/Thresholds.antt =====
-- `derive_signals` reports a threshold exactly when it is crossed.
use mongo_ha.Base.{
  ltb, leb, Bool-cases, Option_filter, Any, In, In-append_left, In-append_right, In-append,
  In-guard, guard-In, Duration, from_secs, ℕ, ◌-◌, ◌*◌, ◌/◌, ◌≤◌, ◌<◌, ◌≡◌, refl, sym, ◌↔◌, ◌⊎◌,
  inl, inr, Bool, true, false, ◌&&◌, ◌||◌, Option, none, some, List, [], ◌∷◌, ◌++◌, arith,
}
use mathlib.Core.Path.{subst}
use mongo_ha.Text.{Text, codes, text_eq, text_eq_iff}
use mongo_ha.ReplicationMonitor.{
  recovering, startup2, stuck_state_dwell, oplog_window_floor, warn_at, MemberObservation,
  ReplicationSignal, stuck_in_state, falling_off_oplog, oplog_window_low, window_signals,
  stuck_signals, lag_signals, member_signals, all_member_signals, derive_signals,
}

-- The member has been catching up for a quarter of an hour.
pub record Stuck (host state : Text) (held : Duration) (m : MemberObservation) : Type 0 where
  pub other : m.is_self ≡ false
  pub same_host : m.host ≡ host
  pub same_state : m.state_str ≡ state
  pub same_dwell : m.dwell ≡ held
  pub catching_up : (state ≡ codes "RECOVERING") ⊎ (state ≡ codes "STARTUP2")
  pub long : from_secs 900 ≤ held

-- A reachable secondary lags by three quarters of a window that the oplog's size bounds.
pub record Lagging (oplog_window : Option Duration) (size_bounded : Bool) (primary_secs : Option ℕ)
    (host : Text) (lag window : Duration) (m : MemberObservation) : Type 0 where
  pub other : m.is_self ≡ false
  pub same_host : m.host ≡ host
  pub reached : m.healthy ≡ true
  pub secondary : m.state_str ≡ codes "SECONDARY"
  pub known : oplog_window ≡ some window
  pub truncating : size_bounded ≡ true
  pub primary : ℕ
  pub applied : ℕ
  pub primary_known : primary_secs ≡ some primary
  pub applied_known : m.optime_secs ≡ some applied
  pub behind : applied < primary
  pub lag_lem : lag ≡ from_secs (primary - applied)
  pub most_of_window : window * 3 / 4 ≤ lag

abbrev pub Crossed :
    Option Duration → Bool → Option ℕ → List MemberObservation → ReplicationSignal → Type 0
Crossed w b p ms (oplog_window_low d) = (w ≡ some d) × (b ≡ true) × (d < from_secs 3600)
Crossed w b p ms (stuck_in_state host state held) = Any (Stuck host state held) ms
Crossed w b p ms (falling_off_oplog host lag window) = Any (Lagging w b p host lag window) ms

abbrev filtered : Bool → Option Duration → Option Duration
filtered b w = Option_filter (λ _. b) w

filtered_inv :
    (b : Bool) (w : Option Duration) (d : Duration)
    → filtered b w ≡ some d
    → (w ≡ some d) × (b ≡ true)
filtered_inv b w d e = ground arith

window_inv :
    (b : Bool) (w : Option Duration) (s : ReplicationSignal)
    → In s (window_signals (filtered b w))
    → (d : Duration) × (s ≡ oplog_window_low d) × (w ≡ some d) × (b ≡ true) × (d < from_secs 3600)
unfolding window_signals
window_inv b none s m = absurd m
window_inv false (some d) s m = absurd m
window_inv true (some d) s m =
    let (t, e) = In-guard (ltb d oplog_window_floor) s (oplog_window_low d) m in
    (d, e, refl, refl, ground arith)

window_intro :
    (b : Bool) (w : Option Duration) (d : Duration)
    → w ≡ some d
    → b ≡ true
    → d < from_secs 3600
    → In (oplog_window_low d) (window_signals (filtered b w))
unfolding window_signals
window_intro b none d e t h = absurd (ground arith)
window_intro false (some x) d e t h = absurd (ground arith)
window_intro true (some x) d e t h =
    guard-In (ltb x oplog_window_floor) (oplog_window_low d) (oplog_window_low x) (ground arith)
      (ground arith)

stuck_signals-inv :
    (m : MemberObservation) (s : ReplicationSignal)
    → m.is_self ≡ false
    → In s (stuck_signals m)
    → (s ≡ stuck_in_state m.host m.state_str m.dwell) × Stuck m.host m.state_str m.dwell m
unfolding stuck_signals
stuck_signals-inv m s o i =
    let (t, e) =
      In-guard
        ((text_eq m.state_str recovering || text_eq m.state_str startup2)
          && leb stuck_state_dwell m.dwell)
        s (stuck_in_state m.host m.state_str m.dwell) i in
    (
      e,
      record {
        other = o;
        same_host = refl;
        same_state = refl;
        same_dwell = refl;
        catching_up =
            ground (arith, t, text_eq_iff m.state_str recovering, text_eq_iff m.state_str startup2);
        long = ground (arith, t);
      },
    )

stuck_signals-intro :
    (m : MemberObservation) (host state : Text) (held : Duration)
    → Stuck host state held m
    → In (stuck_in_state host state held) (stuck_signals m)
unfolding stuck_signals
stuck_signals-intro m host state held v =
    guard-In
      ((text_eq m.state_str recovering || text_eq m.state_str startup2)
        && leb stuck_state_dwell m.dwell)
      (stuck_in_state host state held) (stuck_in_state m.host m.state_str m.dwell)
      (ground (arith, text_eq_iff m.state_str recovering, text_eq_iff m.state_str startup2))
      (ground arith)

lag_signals-inv :
    (host : Text) (r : Bool) (w : Option Duration) (p a : Option ℕ) (s : ReplicationSignal)
    → In s (lag_signals host r w p a)
    → (window : ℕ) × (primary : ℕ) × (applied : ℕ) × (s
        ≡ falling_off_oplog host (from_secs (primary - applied)) window)
      × (r ≡ true)
      × (w ≡ some window)
      × (p ≡ some primary)
      × (a ≡ some applied)
      × (applied < primary)
      × (window * 3 / 4 ≤ from_secs (primary - applied))
unfolding lag_signals
lag_signals-inv host true (some window) (some primary) (some applied) s m =
    let (t, e) =
      In-guard (ltb applied primary && leb (warn_at window) (from_secs (primary - applied))) s
        (falling_off_oplog host (from_secs (primary - applied)) window) m in
    (window, primary, applied, e, refl, refl, refl, refl, ground arith, ground arith)
lag_signals-inv _ _ _ _ _ s m = absurd m

lag_signals-intro :
    (host : Text) (r : Bool) (w : Option Duration) (p a : Option ℕ) (lag window primary applied : ℕ)
    → r ≡ true
    → w ≡ some window
    → p ≡ some primary
    → a ≡ some applied
    → applied < primary
    → lag ≡ from_secs (primary - applied)
    → window * 3 / 4 ≤ lag
    → In (falling_off_oplog host lag window) (lag_signals host r w p a)
unfolding lag_signals
lag_signals-intro host r w p a lag window primary applied re we pe ae lt le most =
    rw (re, we, pe, ae, lag_signals)
      (guard-In (ltb applied primary && leb (warn_at window) (from_secs (primary - applied)))
        (falling_off_oplog host lag window)
        (falling_off_oplog host (from_secs (primary - applied)) window)
        (ground (arith, le, most, lt)) (ground (arith, le)))

replicating : MemberObservation → Bool
replicating m = m.healthy && text_eq m.state_str (codes "SECONDARY")

replicating_iff :
    (m : MemberObservation)
    → (replicating m ≡ true) ↔ ((m.healthy ≡ true) × (m.state_str ≡ codes "SECONDARY"))
unfolding replicating
replicating_iff m = ground (arith, text_eq_iff m.state_str (codes "SECONDARY"))

module _ (w : Option Duration) (b : Bool) (p : Option ℕ) where
  -- What one member contributes.
  abbrev Shown : ReplicationSignal → MemberObservation → Type 0
  Shown (oplog_window_low d) m = ⊥
  Shown (stuck_in_state host state held) m = Stuck host state held m
  Shown (falling_off_oplog host lag window) m = Lagging w b p host lag window m

  Shown-of_lag :
      (m : MemberObservation) (s : ReplicationSignal)
      → m.is_self ≡ false
      → In s (lag_signals m.host (replicating m) (filtered b w) p m.optime_secs)
      → Shown s m
  Shown-of_lag m s o i =
      let (window, primary, applied, e, r, we, pe, ae, lt, most) =
        lag_signals-inv m.host (replicating m) (filtered b w) p m.optime_secs s i in
      let (healthy, secondary) = (replicating_iff m).0 r in
      let (known, truncating) = filtered_inv b w window we in
      subst (λ x. Shown x m) (sym e)
        (record {
          other = o;
          same_host = refl;
          reached = healthy;
          secondary = secondary;
          known = known;
          truncating = truncating;
          primary = primary;
          applied = applied;
          primary_known = pe;
          applied_known = ae;
          behind = lt;
          lag_lem = refl;
          most_of_window = most;
        })

  Shown-inv :
      (m : MemberObservation) (s : ReplicationSignal)
      → In s (member_signals (filtered b w) p m)
      → Shown s m
  unfolding member_signals replicating
  Shown-inv m s i = elim (Bool-cases m.is_self) [
    | inl self ↦
        let e : member_signals (filtered b w) p m ≡ [] = ground (arith, self) in
        absurd (subst (λ x. In s x) e i)
    | inr o ↦
        let e : member_signals (filtered b w) p m
            ≡ stuck_signals m ++ lag_signals m.host (replicating m) (filtered b w) p m.optime_secs =
          ground (arith, o) in
        elim (In-append s (stuck_signals m) _ (subst (λ x. In s x) e i)) [
          | inl j ↦ let (e, v) = stuck_signals-inv m s o j in subst (λ x. Shown x m) (sym e) v
          | inr j ↦ Shown-of_lag m s o j
        ]
  ]

  Shown-intro :
      (m : MemberObservation) (s : ReplicationSignal)
      → Shown s m
      → In s (member_signals (filtered b w) p m)
  unfolding member_signals replicating
  Shown-intro m (oplog_window_low d) v = absurd v
  Shown-intro m (stuck_in_state host state held) v = rw v.other (
      In-append_left (stuck_in_state host state held) (stuck_signals m) _
        (stuck_signals-intro m host state held v))
  Shown-intro m (falling_off_oplog host lag window) v =
      rw (v.other, ← v.same_host)
        (In-append_right (falling_off_oplog m.host lag window) (stuck_signals m)
          (lag_signals m.host (replicating m) (filtered b w) p m.optime_secs)
          (lag_signals-intro m.host (replicating m) (filtered b w) p m.optime_secs lag window
            v.primary v.applied ((replicating_iff m).1 (v.reached, v.secondary))
            (ground (arith, v.known, v.truncating)) v.primary_known v.applied_known v.behind
            v.lag_lem v.most_of_window))

  Shown-all_inv :
      (ms : List MemberObservation) (s : ReplicationSignal)
      → In s (all_member_signals (filtered b w) p ms)
      → Any (Shown s) ms
  unfolding all_member_signals
  Shown-all_inv [] s i = absurd i
  Shown-all_inv (m ∷ ms) s i = elim (In-append s (member_signals (filtered b w) p m) _ i) [
    | inl j ↦ inl (Shown-inv m s j)
    | inr j ↦ inr (Shown-all_inv ms s j)
  ]

  Shown-all_intro :
      (ms : List MemberObservation) (s : ReplicationSignal)
      → Any (Shown s) ms
      → In s (all_member_signals (filtered b w) p ms)
  unfolding all_member_signals
  Shown-all_intro [] s i = absurd i
  Shown-all_intro (m ∷ ms) s (inl v) =
      In-append_left s (member_signals (filtered b w) p m) _ (Shown-intro m s v)
  Shown-all_intro (m ∷ ms) s (inr v) =
      In-append_right s (member_signals (filtered b w) p m) _ (Shown-all_intro ms s v)

  Crossed-of_Shown :
      (ms : List MemberObservation) (s : ReplicationSignal) → Any (Shown s) ms → Crossed w b p ms s
  Crossed-of_Shown ms (oplog_window_low d) v = absurd (nowhere ms v)
    where
      nowhere : (ms : List MemberObservation) → ¬ Any (Shown (oplog_window_low d)) ms
      nowhere [] v = v
      nowhere (m ∷ ms) (inl v) = v
      nowhere (m ∷ ms) (inr v) = nowhere ms v
  Crossed-of_Shown ms (stuck_in_state host state held) v = v
  Crossed-of_Shown ms (falling_off_oplog host lag window) v = v

  Crossed-of_window :
      (ms : List MemberObservation) (s : ReplicationSignal)
      → In s (window_signals (filtered b w))
      → Crossed w b p ms s
  Crossed-of_window ms s i =
      let (d, e, known, truncating, low) = window_inv b w s i in
      subst (Crossed w b p ms) (sym e) (known, truncating, low)

  derive_signals_intro :
      (ms : List MemberObservation) (s : ReplicationSignal)
      → Crossed w b p ms s
      → In s (derive_signals w b p ms)
  unfolding derive_signals
  derive_signals_intro ms (oplog_window_low d) (known, truncating, low) =
      In-append_left (oplog_window_low d) (window_signals (filtered b w)) _
        (window_intro b w d known truncating low)
  derive_signals_intro ms (stuck_in_state host state held) v =
      In-append_right (stuck_in_state host state held) (window_signals (filtered b w)) _
        (Shown-all_intro ms (stuck_in_state host state held) v)
  derive_signals_intro ms (falling_off_oplog host lag window) v =
      In-append_right (falling_off_oplog host lag window) (window_signals (filtered b w)) _
        (Shown-all_intro ms (falling_off_oplog host lag window) v)

  -- A poll reports a signal exactly when its threshold is crossed: the window of a size-bounded oplog
  -- below an hour; another member in RECOVERING or STARTUP2 for a quarter of an hour; another
  -- reachable SECONDARY whose known lag has reached three quarters of the size-bounded window.
  pub derive_signals_iff :
      (ms : List MemberObservation) (s : ReplicationSignal)
      → In s (derive_signals w b p ms) ↔ Crossed w b p ms s
  unfolding derive_signals
  derive_signals_iff ms s = (
    λ i. elim (In-append s (window_signals (filtered b w)) _ i) [
      | inl j ↦ Crossed-of_window ms s j
      | inr j ↦ Crossed-of_Shown ms s (Shown-all_inv ms s j)
    ],
    derive_signals_intro ms s,
  )
