-- ===== src/Rs/Orchestrate/Initiation.antt =====
-- When a round initiates a set.
use mongo_ha.Base.{
  ltb, if◌then◌else◌, Bool-cases, unwrap_or, All, any, Instant, duration_since, ℕ, ◌-◌, ◌≤◌, ◌≡◌,
  refl, sym, ap, ◌∙◌, ◌⊎◌, inl, inr, Bool, true, false, not, ◌&&◌, ◌||◌, Option, none, some, List,
  [], ◌∷◌, ◌++◌, arith,
}
use mathlib.Core.Bool.{false≢true}
use mongo_ha.Text.{Text}
use mongo_ha.Bson.{Documents}
use mongo_ha.DnsProbe.{NameVerdict}
use mongo_ha.Peers.{PeerAnswer}
use mongo_ha.Mongo.{Reply, ok, err, RsStatus, not_initialized, not_a_member, active}
use mongo_ha.Mongo.Config
use mongo_ha.Mongo.Config.{Built, config_with_member_added, config_member_hosts}
use mongo_ha.Rs.Decide.{
  Verdict, join_existing, safe_to_initiate, defer_to, undecidable, standing_of, is_unknown,
}
use mongo_ha.Rs.Decide.Spec.{Yields, decide-safe_iff}
use mongo_ha.Rs.Gone.{GoneTracker, is_waived}
use mongo_ha.Rs.Orchestrate.{
  Settings, Loop, Membership, member, no_config, dropped, membership, peer_of, observed, see_peers,
  Joining, added, already_named, failed, Effect, initiate, reconfig, node_started, component_error,
  logged, Round, waiting, unstable, joined_with, warn_foreign, joined_from,
  add_self_through_primary, is_busy, after_join, hold_or_initiate, act, verdict_of, seek,
  on_membership, on_status, round, codes,
}

-- Each peer that was asked yields to this node, or its name has been gone for the whole dwell.
unfoldable pub Accounted :
    Settings → (Text → NameVerdict) → Instant → List (Text × PeerAnswer) → GoneTracker → Type 0
Accounted s probe now [] g = Unit
Accounted s probe now ((host, answer) ∷ rest) g =
    (Yields s.my_has_data s.my_seed_rank (peer_of s host answer)
      ⊎ ((is_unknown (standing_of answer) ≡ true)
          × (is_waived host now s.gone_dwell (observed probe now host answer g) ≡ true)))
    × Accounted s probe now rest (observed probe now host answer g)

pub Yields-Accounted :
    (s : Settings) (probe : Text → NameVerdict) (now : Instant) (answers : List (Text × PeerAnswer))
    (g : GoneTracker)
    → All (Yields s.my_has_data s.my_seed_rank) (see_peers s probe now answers g).1
    → Accounted s probe now answers g
unfolding see_peers Accounted
Yields-Accounted s probe now [] g h = tt
Yields-Accounted s probe now ((host, answer) ∷ rest) g h =
    go
      (is_unknown (standing_of answer)
        && is_waived host now s.gone_dwell (observed probe now host answer g))
      refl (Yields-Accounted s probe now rest (observed probe now host answer g)) h
  where
    go :
        (waived : Bool)
        → (is_unknown (standing_of answer)
            && is_waived host now s.gone_dwell (observed probe now host answer g))
          ≡ waived
        → (All
              (Yields s.my_has_data s.my_seed_rank)
              (see_peers s probe now rest (observed probe now host answer g)).1
            → Accounted s probe now rest (observed probe now host answer g))
        → All (Yields s.my_has_data s.my_seed_rank) (
            if waived
            then (see_peers s probe now rest (observed probe now host answer g)).1
            else peer_of s host answer
              ∷ (see_peers s probe now rest (observed probe now host answer g)).1)
        → Accounted s probe now ((host, answer) ∷ rest) g
    go true e rec ys = (inr (ground (arith, e), ground (arith, e)), rec ys)
    go false e rec (y, ys) = (inl y, rec ys)

module _ (b : Documents) where
  open b use {Document}

  abbrev pub is_initiate : Effect Document → Bool
  is_initiate initiate = true
  is_initiate (reconfig host d) = false
  is_initiate (node_started t) = false
  is_initiate (component_error t) = false
  is_initiate (logged t) = false

  abbrev pub calls_initiate : List (Effect Document) → Bool
  calls_initiate fx = any is_initiate fx

  calls_initiate-append :
      (xs ys : List (Effect Document))
      → calls_initiate (xs ++ ys) ≡ (calls_initiate xs || calls_initiate ys)
  calls_initiate-append [] ys = refl
  calls_initiate-append (x ∷ xs) ys = ground (arith, calls_initiate-append xs ys)

  pub quiet-waiting : (reason : Text) (l : Loop) → calls_initiate (waiting b reason l).1 ≡ false
  unfolding waiting
  quiet-waiting reason l = ground arith

  quiet-joined_with :
      (r : Round b) (primary : Text) (next : Built Document)
      → calls_initiate (joined_with b r primary next).1 ≡ false
  quiet-joined_with r primary (Config.ok next) = ground arith
  quiet-joined_with r primary (Config.err why) = refl

  quiet-joined_from :
      (s : Settings) (r : Round b) (primary : Text) (my_has_data : Bool) (c : Reply Document)
      → calls_initiate (joined_from b s r primary my_has_data c).1 ≡ false
  quiet-joined_from s r primary my_has_data (ok current) = ground (
    arith,
    calls_initiate-append (warn_foreign b my_has_data),
    quiet-joined_with r primary (config_with_member_added b current s.node_id),
  )
  quiet-joined_from s r primary my_has_data (err e) = refl

  abbrev retry_reason : Option ℕ → Text
  retry_reason code = if is_busy b code then codes "reconfig-retry" else codes "join-error"

  quiet-after_join :
      (l : Loop) (j : Joining) (fx : List (Effect Document))
      → calls_initiate fx ≡ false
      → calls_initiate (after_join b l (j, fx)).1 ≡ false
  quiet-after_join l added fx h = h
  quiet-after_join l already_named fx h = h
  quiet-after_join l (failed code) fx h =
      calls_initiate-append fx (waiting b (retry_reason code) l).1
      ∙ ground (arith, h, quiet-waiting (retry_reason code) l)

  quiet-join :
      (s : Settings) (r : Round b) (primary : Text) (my_has_data : Bool) (l : Loop)
      → calls_initiate (after_join b l (add_self_through_primary b s r primary my_has_data)).1
        ≡ false
  unfolding add_self_through_primary
  quiet-join s r primary my_has_data l =
      let (j, fx) = add_self_through_primary b s r primary my_has_data in
      quiet-after_join l j fx (quiet-joined_from s r primary my_has_data (r.rs_config primary))

  abbrev held : Round b → Loop → Loop
  held r l = record {
    gone = l.gone;
    stable_since = some (unwrap_or l.stable_since r.now);
    last_log = l.last_log;
  }

  -- A round calls it only here.
  pub calls_initiate-act :
      (s : Settings) (r : Round b) (removed : Bool) (l : Loop) (v : Verdict)
      → calls_initiate (act b s r removed l v).1 ≡ true
      → (v ≡ safe_to_initiate)
        × (removed ≡ false)
        × (s.dwell ≤ duration_since r.now (unwrap_or l.stable_since r.now))
  unfolding act hold_or_initiate
  calls_initiate-act s r removed l (join_existing (some primary)) h =
      absurd (
        false≢true (sym (quiet-join s r primary (s.my_has_data && not removed) (unstable b l)) ∙ h))
  calls_initiate-act s r removed l (join_existing none) h =
      absurd (ground (arith, h, quiet-waiting (codes "no-primary") (unstable b l)))
  calls_initiate-act s r true l safe_to_initiate h =
      absurd (ground (arith, h, quiet-waiting (codes "removed-no-set") l))
  calls_initiate-act s r false l safe_to_initiate h = (
    refl,
    refl,
    elim (Bool-cases (ltb (duration_since r.now (unwrap_or l.stable_since r.now)) s.dwell)) [
      | inl t ↦ absurd (ground (arith, h, t, quiet-waiting (codes "dwell") (held r l)))
      | inr f ↦ ground (arith, f)
    ],
  )
  calls_initiate-act s r removed l (defer_to host) h =
      absurd (ground (arith, h, quiet-waiting (codes "defer-" ++ host) (unstable b l)))
  calls_initiate-act s r removed l undecidable h =
      absurd (ground (arith, h, quiet-waiting (codes "undecidable") (unstable b l)))

  calls_initiate-seek :
      (s : Settings) (r : Round b) (removed : Bool) (l : Loop)
      → calls_initiate (seek b s r removed l).1 ≡ true
      → (verdict_of b s r l ≡ safe_to_initiate)
        × (removed ≡ false)
        × (s.dwell ≤ duration_since r.now (unwrap_or l.stable_since r.now))
  unfolding seek
  calls_initiate-seek s r removed l h = calls_initiate-act s r removed _ (verdict_of b s r l) h

  calls_initiate-on_membership :
      (s : Settings) (r : Round b) (l : Loop) (m : Membership)
      → calls_initiate (on_membership b s r l m).1 ≡ true
      → (m ≡ no_config)
        × (verdict_of b s r l ≡ safe_to_initiate)
        × (s.dwell ≤ duration_since r.now (unwrap_or l.stable_since r.now))
  unfolding on_membership
  calls_initiate-on_membership s r l member h = absurd (false≢true h)
  calls_initiate-on_membership s r l no_config h =
      let (v, n, held) = calls_initiate-seek s r false l h in (refl, v, held)
  calls_initiate-on_membership s r l (dropped reason) h =
      let e : calls_initiate (waiting b reason l).1
            || calls_initiate (seek b s r true (waiting b reason l).0).1
          ≡ true =
        sym
          (calls_initiate-append (waiting b reason l).1 (seek b s r true (waiting b reason l).0).1)
        ∙ h in
      let (v, n, held) =
        calls_initiate-seek s r true (waiting b reason l).0
          (ground (arith, e, quiet-waiting reason l)) in
      absurd (false≢true (sym n))

  membership-no_config :
      (status : RsStatus) → membership status ≡ no_config → status ≡ not_initialized
  unfolding membership
  membership-no_config not_initialized h = refl
  membership-no_config not_a_member h = cc
  membership-no_config (active a) h = absurd (ground (arith, h))

  -- A round calls `replSetInitiate` only on a node with no set configuration, after the decision has
  -- held for the dwell, and only when every peer that was asked either answered that it is in no set
  -- and does not come before this node, or did not answer while its name has been gone for the
  -- whole dwell of a waiver.
  pub calls_initiate-round :
      (s : Settings) (r : Round b) (l : Loop)
      → calls_initiate (round b s r l).1 ≡ true
      → (r.status ≡ ok not_initialized)
        × (s.dwell ≤ r.now - unwrap_or l.stable_since r.now)
        × Accounted s r.probe r.now r.answers l.gone
  unfolding round on_status
  calls_initiate-round s r l h = go r.status refl h
    where
      go :
          (status : Reply RsStatus)
          → r.status ≡ status
          → calls_initiate (on_status b s r l status).1 ≡ true
          → (r.status ≡ ok not_initialized)
            × (s.dwell ≤ r.now - unwrap_or l.stable_since r.now)
            × Accounted s r.probe r.now r.answers l.gone
      go (err e) q h = absurd (false≢true h)
      go (ok status) q h =
          let (m, v, held) = calls_initiate-on_membership s r l (membership status) h in
          (
            q ∙ ap ok (membership-no_config status m),
            held,
            Yields-Accounted s r.probe r.now r.answers l.gone (
                (decide-safe_iff s.my_has_data s.my_seed_rank
                    (see_peers s r.probe r.now r.answers l.gone).1).0
                  (unfold verdict_of in v)),
          )
