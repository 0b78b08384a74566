-- ===== src/Rs/Orchestrate/Waivers.antt =====
-- The tracker that the loop consults, and the proof behind each waiver of a round that initiates.
use mathlib.Core.Path.{subst}
use mongo_ha.Base.{
  ltb, Bool-cases, Option-cases, unwrap_or, Instant, duration_since, ◌-◌, ◌≤◌, ◌≡◌, refl, sym, ap,
  ◌∙◌, ◌⊎◌, inl, inr, Bool, true, false, not, ◌&&◌, none, some, List, [], ◌∷◌, ◌++◌, arith,
  append_assoc, append_nil,
}
use mongo_ha.Text.{Text}
use mongo_ha.Bson.{Documents}
use mongo_ha.Peers.{PeerAnswer}
use mongo_ha.Mongo.{Reply, ok, err, RsStatus, not_initialized}
use mongo_ha.Rs.Decide.{
  Verdict, join_existing, safe_to_initiate, defer_to, undecidable, standing_of, is_unknown,
}
use mongo_ha.Rs.Decide.Spec.{Yields}
use mongo_ha.Rs.Gone.{GoneTracker, new, is_waived}
use mongo_ha.Rs.Gone.Proof.{Event, apply, run, run-append, GoneSince, waived-GoneSince}
use mongo_ha.Rs.Orchestrate.{
  Settings, Loop, Membership, member, no_config, dropped, membership, peer_of, observed, Joining,
  added, already_named, failed, Effect, Round, waiting, unstable, add_self_through_primary,
  after_join, hold_or_initiate, act, verdict_of, seek, again, on_membership, on_status, round,
}
use mongo_ha.Rs.Orchestrate.Initiation.{Accounted, calls_initiate, calls_initiate-round}
use mongo_ha.Rs.Orchestrate.Stability.{
  Reached, start, step, Held, again-injective, stable-Held, event_of, events, apply-event_of,
  run-see_peers,
}

module _ (b : Documents) (s : Settings) where
  open b use {Document}

  -- What a round reports to the tracker: nothing when mongod did not answer.
  abbrev pub reported_by : Round b → Reply RsStatus → List Event
  reported_by r (err e) = []
  reported_by r (ok status) = events b s r

  pub history : List (Round b) → List Event
  history [] = []
  history (r ∷ rs) = reported_by r r.status ++ history rs

  history-snoc :
      (rs : List (Round b)) (r : Round b)
      → history (rs ++ r ∷ []) ≡ history rs ++ reported_by r r.status
  unfolding history
  history-snoc [] r = append_nil (reported_by r r.status)
  history-snoc (q ∷ rs) r =
      ap (λ es. reported_by q q.status ++ es) (history-snoc rs r)
      ∙ sym (append_assoc (reported_by q q.status) (history rs) (reported_by r r.status))

  waiting-gone : (reason : Text) (l : Loop) → (waiting b reason l).0.gone ≡ l.gone
  unfolding waiting
  waiting-gone reason l = refl

  after_join-gone :
      (l : Loop) (j : Joining) (fx : List (Effect Document))
      → (after_join b l (j, fx)).0.gone ≡ l.gone
  after_join-gone l added fx = refl
  after_join-gone l already_named fx = refl
  after_join-gone l (failed code) fx = waiting-gone _ l

  hold-gone : (r : Round b) (l : Loop) → (hold_or_initiate b s r l).0.gone ≡ l.gone
  unfolding hold_or_initiate waiting
  hold-gone r l =
      elim (Bool-cases (ltb (duration_since r.now (unwrap_or l.stable_since r.now)) s.dwell)) [
        | inl e ↦ rw e refl
        | inr e ↦ rw e refl
      ]

  act-gone :
      (r : Round b) (removed : Bool) (l : Loop) (v : Verdict)
      → (act b s r removed l v).0.gone ≡ l.gone
  unfolding act
  act-gone r removed l (join_existing (some primary)) =
      let (j, fx) = add_self_through_primary b s r primary (s.my_has_data && not removed) in
      after_join-gone (unstable b l) j fx
  act-gone r removed l (join_existing none) = waiting-gone _ (unstable b l)
  act-gone r true l safe_to_initiate = waiting-gone _ l
  act-gone r false l safe_to_initiate = hold-gone r l
  act-gone r removed l (defer_to host) = waiting-gone _ (unstable b l)
  act-gone r removed l undecidable = waiting-gone _ (unstable b l)

  seek-gone :
      (r : Round b) (removed : Bool) (l : Loop)
      → (seek b s r removed l).0.gone ≡ run (events b s r) l.gone
  unfolding seek
  seek-gone r removed l =
      act-gone r removed _ (verdict_of b s r l)
      ∙ unfold events in run-see_peers b s r r.answers l.gone

  on_membership-gone :
      (r : Round b) (l m : Loop) (k : Membership)
      → (on_membership b s r l k).0 ≡ again m
      → m.gone ≡ run (events b s r) l.gone
  unfolding on_membership
  on_membership-gone r l m member h = cc
  on_membership-gone r l m no_config h =
      sym (ap (λ x. x.gone) (again-injective b s h)) ∙ seek-gone r false l
  on_membership-gone r l m (dropped reason) h =
      sym (ap (λ x. x.gone) (again-injective b s h))
      ∙ seek-gone r true (waiting b reason l).0
      ∙ ap (run (events b s r)) (waiting-gone reason l)

  round-gone :
      (r : Round b) (l m : Loop)
      → (round b s r l).0 ≡ again m
      → m.gone ≡ run (reported_by r r.status) l.gone
  unfolding round on_status
  round-gone r l m h = go r.status h
    where
      go :
          (status : Reply RsStatus)
          → (on_status b s r l status).0 ≡ again m
          → m.gone ≡ run (reported_by r status) l.gone
      go (err e) k = unfold run in sym (ap (λ x. x.gone) (again-injective b s k))
      go (ok status) k = on_membership-gone r l m (membership status) k

  Reached-gone : {rs : List (Round b)} {l : Loop} → Reached b s rs l → l.gone ≡ run (history rs) new
  Reached-gone start = unfold history run in refl
  Reached-gone (step rs l {m} r before h) =
      round-gone r l m h
      ∙ ap (run (reported_by r r.status)) (Reached-gone before)
      ∙ sym (run-append (history rs) (reported_by r r.status) new)
      ∙ ap (λ es. run es new) (sym (history-snoc rs r))

  apply-run : (e : Event) (g : GoneTracker) → apply e g ≡ run (e ∷ []) g
  unfolding run
  apply-run e g = refl

  -- At the end of the events the name has been found gone for a whole dwell without a break.
  abbrev pub ProvenGone : List Event → Instant → Text → Type 0
  ProvenGone es now host = (t : Instant) × GoneSince host t es × (s.gone_dwell ≤ now - t)

  -- The peer yields, or did not answer and is proven gone.
  abbrev pub Justified : List Event → Instant → Text × PeerAnswer → Type 0
  Justified es now (host, answer) =
      Yields s.my_has_data s.my_seed_rank (peer_of s host answer)
      ⊎ ((is_unknown (standing_of answer) ≡ true) × ProvenGone es now host)

  -- Each peer is justified by the events up to and with this round's report of it.
  pub EachJustified : Round b → List Event → List (Text × PeerAnswer) → Type 0
  EachJustified r past [] = Unit
  EachJustified r past ((host, answer) ∷ rest) =
      Justified (past ++ event_of b s r (host, answer) ∷ []) r.now (host, answer)
      × EachJustified r (past ++ event_of b s r (host, answer) ∷ []) rest

  justified :
      (r : Round b) (answers : List (Text × PeerAnswer)) (past : List Event)
      → Accounted s r.probe r.now answers (run past new)
      → EachJustified r past answers
  unfolding Accounted EachJustified
  justified r [] past h = tt
  justified r ((host, answer) ∷ rest) past (y, h) =
      let seen : List Event = past ++ event_of b s r (host, answer) ∷ [] in
      let tracker : observed r.probe r.now host answer (run past new) ≡ run seen new =
        apply-event_of b s r host answer (run past new)
        ∙ apply-run (event_of b s r (host, answer)) (run past new)
        ∙ sym (run-append past (event_of b s r (host, answer) ∷ []) new) in
      (
        elim y [
          | inl yields ↦ inl yields
          | inr (unanswered, waived) ↦ inr (
            unanswered,
            waived-GoneSince host seen r.now s.gone_dwell
                (subst (λ g. is_waived host r.now s.gone_dwell g ≡ true) tracker waived),
          )
        ],
        justified r rest seen (subst (Accounted s r.probe r.now rest) tracker h),
      )

  -- The safety of bootstrapping, over any history of rounds from the start: a node calls
  -- `replSetInitiate` only when its mongod reports no set configuration; when a round of that history,
  -- a whole dwell earlier, decided that initiating is safe and no round since then, of those in which
  -- mongod answered, decided otherwise (or the dwell is zero); and when every peer that was asked
  -- yields, or did not answer and its name, up to and with this round's probe of it, was found gone
  -- for a whole waiver dwell without a break.
  pub calls_initiate-Justified :
      {rs : List (Round b)} {l : Loop} (r : Round b)
      → Reached b s rs l
      → calls_initiate b (round b s r l).1 ≡ true
      → (r.status ≡ ok not_initialized)
        × ((s.dwell ≡ 0) ⊎ ((t : Instant) × Held b s t rs l × (s.dwell ≤ r.now - t)))
        × EachJustified r (history rs) r.answers
  calls_initiate-Justified {rs} {l} r reached h =
      let (status, held, accounted) = calls_initiate-round b s r l h in
      (
        status,
        elim (Option-cases l.stable_since) [
          | inl n ↦ inl (ground (arith, n, held))
          | inr (t, n) ↦ inr (t, stable-Held b s t reached n, ground (arith, n, held))
        ],
        justified r r.answers (history rs)
            (subst (Accounted s r.probe r.now r.answers) (Reached-gone reached) accounted),
      )
