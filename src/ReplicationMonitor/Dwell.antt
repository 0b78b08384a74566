-- ===== src/ReplicationMonitor/Dwell.antt =====
-- The tracker's dwell is the time for which a host has reported its state without a break.
use mongo_ha.Base.{
  Bool-cases, All, Duration, Instant, duration_since, ◌-◌, ◌≡◌, refl, ◌≢◌, ◌⊎◌, inl, inr, true,
  false, Option, none, some, List, [], ◌∷◌, arith,
}
use mongo_ha.Text.{Text, text_eq, text_eq_iff, text_eq_refl}
use mongo_ha.Maps.{get, get-insert, get-retain, contains}
use mongo_ha.ReplicationMonitor.{MemberStateTracker, dwell_of, observe, retain_known}

-- What the polls do to the tracker.
pub data Poll : Type 0 where
  polled : Text → Text → Instant → Poll
  view : List Text → Poll

unfoldable pub record_poll : Poll → MemberStateTracker → MemberStateTracker
record_poll (polled host state now) t = (observe host state now t).0
record_poll (view hosts) t = retain_known hosts t

unfoldable pub record_polls : List Poll → MemberStateTracker → MemberStateTracker
record_polls [] t = t
record_polls (e ∷ es) t = record_polls es (record_poll e t)

-- The poll is about another host, or finds the host in the state; a membership view lists it.
abbrev pub Unbroken : Text → Text → Poll → Type 0
Unbroken host state (polled h s now) = (h ≢ host) ⊎ (s ≡ state)
Unbroken host state (view hosts) = contains host hosts ≡ true

kept-observe :
    (host state h s : Text) (t0 now : Instant) (t : MemberStateTracker)
    → (h ≢ host) ⊎ (s ≡ state)
    → get host t.since ≡ some (state, t0)
    → get host (observe h s now t).0.since ≡ some (state, t0)
unfolding observe
kept-observe host state h s t0 now t u e = elim (Bool-cases (text_eq h host)) [
  | inl q ↦ same u ((text_eq_iff h host).0 q)
  | inr q ↦ go (dwell_of (get h t.since) s now) refl q
]
  where
    same :
        (h ≢ host) ⊎ (s ≡ state)
        → h ≡ host
        → get host (observe h s now t).0.since ≡ some (state, t0)
    same (inl n) q = absurd (n q)
    same (inr r) q =
        let d : dwell_of (get h t.since) s now ≡ some (duration_since now t0) =
          ground (arith, q, r, e, text_eq_refl state) in
        rw d e

    go :
        (o : Option Duration)
        → dwell_of (get h t.since) s now ≡ o
        → text_eq h host ≡ false
        → get host (observe h s now t).0.since ≡ some (state, t0)
    go none f q = rw f (ground (arith, get-insert h host (s, now) t.since, q, e))
    go (some d) f q = rw f e

kept-run :
    (host state : Text) (es : List Poll) (t0 : Instant) (t : MemberStateTracker)
    → All (Unbroken host state) es
    → get host t.since ≡ some (state, t0)
    → get host (record_polls es t).since ≡ some (state, t0)
unfolding record_polls record_poll retain_known
kept-run host state [] t0 t u e = e
kept-run host state (polled h s now ∷ es) t0 t (u, us) e =
    kept-run host state es t0 (observe h s now t).0 us (kept-observe host state h s t0 now t u e)
kept-run host state (view hosts ∷ es) t0 t (u, us) e =
    kept-run host state es t0 (retain_known hosts t) us
      (ground (arith, get-retain (λ h. contains h hosts) host t.since, u, e))

begun-observe :
    (host state : Text) (t0 : Instant) (t : MemberStateTracker)
    → dwell_of (get host t.since) state t0 ≡ none
    → ((observe host state t0 t).1 ≡ 0)
      × (get host (observe host state t0 t).0.since ≡ some (state, t0))
unfolding observe
begun-observe host state t0 t e =
    rw e (refl, ground (arith, get-insert host host (state, t0) t.since, text_eq_refl host))

-- A host that reports a new state at `t0` has dwelt for nothing; and as long as every later poll of
-- it reports that state, and every membership view lists it, its dwell at `now` is the time since
-- `t0`, whatever happens to other hosts.
pub observe-dwell :
    (host state : Text) (es : List Poll) (t0 now : Instant) (t : MemberStateTracker)
    → dwell_of (get host t.since) state t0 ≡ none
    → All (Unbroken host state) es
    → ((observe host state t0 t).1 ≡ 0)
      × ((observe host state now (record_polls es (observe host state t0 t).0)).1 ≡ now - t0)
unfolding observe
observe-dwell host state es t0 now t e u =
    let (zero_dwell, start) = begun-observe host state t0 t e in
    let kept = kept-run host state es t0 (observe host state t0 t).0 u start in
    (
      zero_dwell,
      let d : dwell_of (get host (record_polls es (observe host state t0 t).0).since) state now
              ≡ some (duration_since now t0) =
            ground (arith, kept, text_eq_refl state) in
          rw d refl,
    )
