-- ===== src/Rs/Orchestrate/Stability.antt =====
-- How long the decision to initiate has held, over the rounds that led to it.
use mongo_ha.Base.{
  if◌then◌else◌, Bool-cases, Option-cases, Instant, ◌≡◌, refl, sym, ap, ◌∙◌, ◌⊎◌, inl, inr, Bool,
  true, false, not, ◌&&◌, none, some, List, [], ◌∷◌, ◌++◌, map, arith,
}
use mongo_ha.Text.{Text}
use mongo_ha.Bson.{Documents}
use mongo_ha.Peers.{PeerAnswer}
use mongo_ha.Mongo.{MongoError, Reply, ok, err, RsStatus}
use mongo_ha.Rs.Decide.{
  Verdict, join_existing, safe_to_initiate, defer_to, undecidable, standing_of, is_unknown,
}
use mongo_ha.Rs.Gone.{GoneTracker}
use mongo_ha.Rs.Gone.Proof.{Event, probed, reachable, apply, run}
use mongo_ha.Rs.Orchestrate.{
  Settings, Loop, initial, Membership, member, no_config, dropped, membership, observed, see_peers,
  Joining, added, already_named, failed, Effect, Round, waiting, unstable, add_self_through_primary,
  after_join, hold_or_initiate, act, verdict_of, seek, Step, again, on_membership, on_status, round,
}

module _ (b : Documents) (s : Settings) where
  open b use {Document}

  -- mongod answered in the round, which decided that initiating is safe.
  abbrev pub Agrees : Round b → Loop → Type 0
  Agrees r l =
      (status : RsStatus) × (r.status ≡ ok status) × (verdict_of b s r l ≡ safe_to_initiate)

  -- The round learnt nothing: mongod did not answer.
  abbrev pub Blind : Round b → Type 0
  Blind r = (e : MongoError) × (r.status ≡ err e)

  -- The states that the loop reaches by such rounds, oldest first.
  pub data Reached : List (Round b) → Loop → Type 0 where
    start : Reached [] initial
    step :
        (rs : List (Round b)) (l : Loop) {m : Loop} (r : Round b)
        → Reached rs l
        → (round b s r l).0 ≡ again m
        → Reached (rs ++ r ∷ []) m

  -- Among the rounds, which lead to the loop's state, one at time `t` decided that initiating is safe,
  -- and no later one in which mongod answered decided otherwise.
  pub data Held (t : Instant) : List (Round b) → Loop → Type 0 where
    begun :
        (rs : List (Round b)) (l : Loop) {m : Loop} (r : Round b)
        → Reached rs l
        → r.now ≡ t
        → Agrees r l
        → (round b s r l).0 ≡ again m
        → Held t (rs ++ r ∷ []) m
    kept :
        (rs : List (Round b)) (l : Loop) {m : Loop} (r : Round b)
        → Held t rs l
        → Agrees r l ⊎ Blind r
        → (round b s r l).0 ≡ again m
        → Held t (rs ++ r ∷ []) m

  -- What a round leaves of the time since which the decision holds.
  abbrev Origin : Round b → Loop → Instant → Type 0
  Origin r l t = (verdict_of b s r l ≡ safe_to_initiate) × ((l.stable_since ≡ some t) ⊎ (r.now ≡ t))

  waiting-stable : (reason : Text) (l : Loop) → (waiting b reason l).0.stable_since ≡ l.stable_since
  unfolding waiting
  waiting-stable reason l = refl

  after_join-stable :
      (l : Loop) (j : Joining) (fx : List (Effect Document))
      → (after_join b l (j, fx)).0.stable_since ≡ l.stable_since
  after_join-stable l added fx = refl
  after_join-stable l already_named fx = refl
  after_join-stable l (failed code) fx = waiting-stable _ l

  hold-stable :
      (r : Round b) (l : Loop) (t : Instant)
      → (hold_or_initiate b s r l).0.stable_since ≡ some t
      → (l.stable_since ≡ some t) ⊎ (r.now ≡ t)
  unfolding hold_or_initiate waiting
  hold-stable r l t h = elim (Option-cases l.stable_since) [
    | inl n ↦ inr (ground (arith, h, n))
    | inr (u, n) ↦ inl (ground (arith, h, n))
  ]

  act-stable :
      (r : Round b) (removed : Bool) (l : Loop) (v : Verdict) (t : Instant)
      → (act b s r removed l v).0.stable_since ≡ some t
      → (v ≡ safe_to_initiate) × ((l.stable_since ≡ some t) ⊎ (r.now ≡ t))
  unfolding act
  act-stable r removed l (join_existing (some primary)) t h =
      let (j, fx) = add_self_through_primary b s r primary (s.my_has_data && not removed) in
      absurd (ground (arith, sym (after_join-stable (unstable b l) j fx) ∙ h))
  act-stable r removed l (join_existing none) t h =
      absurd (ground (arith, sym (waiting-stable _ (unstable b l)) ∙ h))
  act-stable r true l safe_to_initiate t h = (refl, inl (sym (waiting-stable _ l) ∙ h))
  act-stable r false l safe_to_initiate t h = (refl, hold-stable r l t h)
  act-stable r removed l (defer_to host) t h =
      absurd (ground (arith, sym (waiting-stable _ (unstable b l)) ∙ h))
  act-stable r removed l undecidable t h =
      absurd (ground (arith, sym (waiting-stable _ (unstable b l)) ∙ h))

  seek-stable :
      (r : Round b) (removed : Bool) (l : Loop) (t : Instant)
      → (seek b s r removed l).0.stable_since ≡ some t
      → Origin r l t
  unfolding seek
  seek-stable r removed l t h = act-stable r removed _ (verdict_of b s r l) t h

  pub again-injective : {l m : Loop} → ◌≡◌ {A = Step b} (again l) (again m) → l ≡ m
  again-injective h = cc

  on_membership-stable :
      (r : Round b) (l m : Loop) (k : Membership) (t : Instant)
      → (on_membership b s r l k).0 ≡ again m
      → m.stable_since ≡ some t
      → Origin r l t
  unfolding on_membership
  on_membership-stable r l m member t h e = cc
  on_membership-stable r l m no_config t h e =
      seek-stable r false l t (ap (λ x. x.stable_since) (again-injective h) ∙ e)
  on_membership-stable r l m (dropped reason) t h e =
      unfold waiting verdict_of in
      seek-stable r true (waiting b reason l).0 t (ap (λ x. x.stable_since) (again-injective h) ∙ e)

  round-stable :
      (r : Round b) (l m : Loop) (t : Instant)
      → (round b s r l).0 ≡ again m
      → m.stable_since ≡ some t
      → (Agrees r l × ((l.stable_since ≡ some t) ⊎ (r.now ≡ t)))
        ⊎ (Blind r × (l.stable_since ≡ some t))
  unfolding round on_status
  round-stable r l m t h e = go r.status refl h
    where
      go :
          (status : Reply RsStatus)
          → r.status ≡ status
          → (on_status b s r l status).0 ≡ again m
          → (Agrees r l × ((l.stable_since ≡ some t) ⊎ (r.now ≡ t)))
            ⊎ (Blind r × (l.stable_since ≡ some t))
      go (err x) q k = inr ((x, q), ap (λ y. y.stable_since) (again-injective k) ∙ e)
      go (ok status) q k =
          let (v, o) = on_membership-stable r l m (membership status) t k e in
          inl ((status, q, v), o)

  -- A recorded start of the decision is real.
  pub stable-Held :
      {rs : List (Round b)} {l : Loop} (t : Instant)
      → Reached rs l
      → l.stable_since ≡ some t
      → Held t rs l
  stable-Held t start e = cc
  stable-Held t (step rs l {m} r before h) e = elim (round-stable r l m t h e) [
    | inl (agrees, inl k) ↦ kept rs l r (stable-Held t before k) (inl agrees) h
    | inl (agrees, inr k) ↦ begun rs l r before k agrees h
    | inr (blind, k) ↦ kept rs l r (stable-Held t before k) (inr blind) h
  ]

  -- The events of a round, and of a history of rounds.
  abbrev pub event_of : Round b → Text × PeerAnswer → Event
  event_of r (host, answer) =
      if is_unknown (standing_of answer) then probed host (r.probe host) r.now else reachable host

  unfoldable pub events : Round b → List Event
  events r = map (event_of r) r.answers

  pub apply-event_of :
      (r : Round b) (host : Text) (answer : PeerAnswer) (g : GoneTracker)
      → observed r.probe r.now host answer g ≡ apply (event_of r (host, answer)) g
  unfolding apply
  apply-event_of r host answer g = elim (Bool-cases (is_unknown (standing_of answer))) [
    | inl e ↦ rw e refl
    | inr e ↦ rw e refl
  ]

  pub run-see_peers :
      (r : Round b) (answers : List (Text × PeerAnswer)) (g : GoneTracker)
      → (see_peers s r.probe r.now answers g).0 ≡ run (map (event_of r) answers) g
  unfolding see_peers run
  run-see_peers r [] g = refl
  run-see_peers r ((host, answer) ∷ rest) g =
      run-see_peers r rest (observed r.probe r.now host answer g)
      ∙ ap (run (map (event_of r) rest)) (apply-event_of r host answer g)
