-- ===== src/Rs/Duties/Prune.antt =====
-- What a prune round removes.
use mathlib.Core.Path.{subst}
use mongo_ha.Base.{
  append_nil, Instant, ◌-◌, if◌then◌else◌, if_elim, All, Any, count, Duration, ◌≤◌, ◌≡◌, refl, sym,
  ap, ◌∙◌, inl, inr, Bool, true, false, List, [], ◌∷◌, ◌++◌, arith, append_assoc,
}
use mongo_ha.Text.{Text}
use mongo_ha.Bson.{Documents}
use mongo_ha.Mongo.{Reply, ok, err, RsMember}
use mongo_ha.Mongo.Address.{split_host_port}
use mongo_ha.Mongo.Config
use mongo_ha.Mongo.Config.{Built, config_with_member_removed}
use mongo_ha.Rs.Gone.{GoneTracker, new, observe_reachable, is_waived}
use mongo_ha.Rs.Gone.Proof.{
  Event, probed, reachable, apply, run, run-append, GoneSince, waived-GoneSince,
}
use mongo_ha.Rs.Duties.{
  Duty, reconfig, node_started, role_changed, pruned, alert, auth_read, Pruning, probed_member,
  after_reconfig, removal, removal_from, prune_members,
}

module _ (b : Documents) (p : Pruning b) (dwell : Duration) where
  open b use {Document}

  -- What the round reports to the tracker about one member.
  abbrev pub events_of : RsMember → List Event
  events_of m =
      if m.is_self
      then []
      else (if m.healthy
          then reachable m.host ∷ []
          else probed m.host (p.probe (split_host_port m.host).0) p.now ∷ [])

  abbrev pub member_events : List RsMember → List Event
  member_events [] = []
  member_events (m ∷ ms) = events_of m ++ member_events ms

  -- An unreachable member of the view, other than this node.
  abbrev pub Departed : List RsMember → Text → Type 0
  Departed members host =
      Any (λ m. (m.host ≡ host) × (m.is_self ≡ false) × (m.healthy ≡ false)) members

  -- At the end of the events the name has been found gone for the whole dwell without a break.
  abbrev pub ProvenGone : List Event → Text → Type 0
  ProvenGone es host = (t : Instant) × GoneSince host t es × (dwell ≤ p.now - t)

  -- A member of the view has this host, and the reports before the round, `es`, with those of the
  -- round up to and with this member prove its name gone.
  abbrev pub Waived : List RsMember → List Event → Text → Type 0
  Waived members es host =
      (before : List RsMember) × (m : RsMember) × (after : List RsMember) × (members
        ≡ before ++ m ∷ after)
      × (m.host ≡ host)
      × ProvenGone (es ++ member_events (before ++ m ∷ [])) host

  -- The config that a reconfig sends is the one that was just read, without the member.
  abbrev pub IsRemoval : Text → Document → Type 0
  IsRemoval host next =
      (current : Document) × (p.rs_config host ≡ ok current)
      × (config_with_member_removed b current host ≡ Config.ok next)

  abbrev pub Sound : List RsMember → List Event → Duty Document → Type 0
  Sound members es (reconfig host next) =
      Departed members host × Waived members es host × IsRemoval host next
  Sound members es (pruned host) = Departed members host × Waived members es host
  Sound members es (node_started r) = ⊥
  Sound members es (role_changed r q) = ⊥
  Sound members es (alert s) = ⊥
  Sound members es auth_read = ⊥

  Waived-cons :
      (m : RsMember) (ms : List RsMember) (es : List Event) (host : Text)
      → Waived ms (es ++ events_of m) host
      → Waived (m ∷ ms) es host
  Waived-cons m ms es host (before, x, after, e, h, proven) = (
    m ∷ before,
    x,
    after,
    ap (◌∷◌ m) e,
    h,
    subst (λ fs. ProvenGone fs host)
        (append_assoc es (events_of m) (member_events (before ++ x ∷ []))) proven,
  )

  -- What holds of a shorter round holds of one with a member more in front.
  Sound-cons :
      (m : RsMember) (ms : List RsMember) (es : List Event) (d : Duty Document)
      → Sound ms (es ++ events_of m) d
      → Sound (m ∷ ms) es d
  Sound-cons m ms es (reconfig host next) (gone, w, r) = (inr gone, Waived-cons m ms es host w, r)
  Sound-cons m ms es (pruned host) (gone, w) = (inr gone, Waived-cons m ms es host w)
  Sound-cons m ms es (node_started r) v = v
  Sound-cons m ms es (role_changed r q) v = v
  Sound-cons m ms es (alert s) v = v
  Sound-cons m ms es auth_read v = v

  All-Sound_cons :
      (m : RsMember) (ms : List RsMember) (es : List Event) (fx : List (Duty Document))
      → All (Sound ms (es ++ events_of m)) fx
      → All (Sound (m ∷ ms) es) fx
  All-Sound_cons m ms es [] h = tt
  All-Sound_cons m ms es (d ∷ fx) (v, vs) = (Sound-cons m ms es d v, All-Sound_cons m ms es fx vs)

  Sound-reconfig :
      (members : List RsMember) (es : List Event) (t : GoneTracker) (host : Text)
      (rest : GoneTracker × List (Duty Document))
      → Departed members host
      → Waived members es host
      → All (Sound members es) rest.1
      → All (Sound members es) (removal_from b p host t rest (p.rs_config host)).1
  Sound-reconfig members es t host rest gone w vs = go (p.rs_config host) refl
    where
      sent :
          (next : Document)
          → IsRemoval host next
          → (r : Reply (Unit {0})) → All (Sound members es) (after_reconfig b host next t rest r).1
      sent next i (ok u) = ((gone, w, i), ((gone, w), tt))
      sent next i (err e) = ((gone, w, i), vs)

      built :
          (current : Document)
          → p.rs_config host ≡ ok current
          → (c : Built Document) → config_with_member_removed b current host ≡ c
          → All (Sound members es) (removal b p host t rest c).1
      built current q (Config.ok next) e = sent next (current, q, e) (p.rs_reconfig host next)
      built current q (Config.err why) e = vs

      go :
          (c : Reply Document)
          → p.rs_config host ≡ c
          → All (Sound members es) (removal_from b p host t rest c).1
      go (err e) q = tt
      go (ok current) q = built current q (config_with_member_removed b current host) refl

  -- Every reconfig of a prune round, and every report of one, concerns an unreachable member of the
  -- view other than this node. Its name was found gone by this round's probe of it, and has been at
  -- every report, from a whole dwell earlier on, of the history `es` and of this round. The reconfig
  -- sends the config just read without that member.
  pub prune_members-Sound :
      (ms : List RsMember) (es : List Event)
      → All (Sound ms es) (prune_members b p dwell ms (run es new)).1
  unfolding prune_members run apply
  prune_members-Sound [] es = tt
  prune_members-Sound (m ∷ ms) es = go (prune_members-Sound ms (es ++ events_of m))
    where
      g : GoneTracker
      g = run es new

      go :
          All
            (Sound ms (es ++ events_of m))
            (prune_members b p dwell ms (run (es ++ events_of m) new)).1
          → All (Sound (m ∷ ms) es) (prune_members b p dwell (m ∷ ms) g).1
      go rec =
          let carried : (t : GoneTracker)
              → run (events_of m) g ≡ t
              → All (Sound (m ∷ ms) es) (prune_members b p dwell ms t).1 =
            λ t e. All-Sound_cons m ms es _ (
              subst (λ x. All (Sound ms (es ++ events_of m)) (prune_members b p dwell ms x).1)
                (run-append es (events_of m) new ∙ e) rec) in
          if_elim (λ (r : GoneTracker × List (Duty Document)). All (Sound (m ∷ ms) es) r.1)
            m.is_self _ _ (λ self. carried g (rw self refl))
            λ other.
              if_elim (λ (r : GoneTracker × List (Duty Document)). All (Sound (m ∷ ms) es) r.1)
                m.healthy _ _ (λ up. carried (observe_reachable m.host g) (rw (other, up) refl))
                λ down.
                  let t : run (events_of m) g ≡ probed_member b p m g = rw (other, down) refl in
                  let vs = carried (probed_member b p m g) t in
                  if_elim (λ (r : GoneTracker × List (Duty Document)). All (Sound (m ∷ ms) es) r.1)
                    (is_waived m.host p.now dwell (probed_member b p m g)) _ _
                    (λ waived.
                      Sound-reconfig (m ∷ ms) es (probed_member b p m g) m.host _
                        (inl (refl, other, down)) (proven t waived) vs)
                    (λ n. vs)
        where
          proven :
              run (events_of m) g ≡ probed_member b p m g
              → is_waived m.host p.now dwell (probed_member b p m g) ≡ true
              → Waived (m ∷ ms) es m.host
          proven t waived =
              let now_seen : run (es ++ member_events (m ∷ [])) new ≡ probed_member b p m g =
                run-append es (member_events (m ∷ [])) new
                ∙ ap (λ fs. run fs g) (append_nil (events_of m))
                ∙ t in
              (
                [],
                m,
                ms,
                refl,
                refl,
                waived-GoneSince m.host (es ++ member_events (m ∷ [])) p.now dwell
                    (subst (λ x. is_waived m.host p.now dwell x ≡ true) (sym now_seen) waived),
              )

  abbrev pub is_pruned : Duty Document → Bool
  is_pruned (pruned host) = true
  is_pruned (reconfig host d) = false
  is_pruned (node_started r) = false
  is_pruned (role_changed r q) = false
  is_pruned (alert s) = false
  is_pruned auth_read = false

  one_reconfig :
      (t : GoneTracker) (host : Text) (rest : GoneTracker × List (Duty Document))
      → count is_pruned rest.1 ≤ 1
      → count is_pruned (removal_from b p host t rest (p.rs_config host)).1 ≤ 1
  one_reconfig t host rest h = go (p.rs_config host)
    where
      sent :
          (next : Document) (r : Reply (Unit {0}))
          → count is_pruned (after_reconfig b host next t rest r).1 ≤ 1
      sent next (ok u) = omega arith
      sent next (err e) = h

      built : (c : Built Document) → count is_pruned (removal b p host t rest c).1 ≤ 1
      built (Config.ok next) = sent next (p.rs_reconfig host next)
      built (Config.err why) = h

      go : (c : Reply Document) → count is_pruned (removal_from b p host t rest c).1 ≤ 1
      go (err e) = omega arith
      go (ok current) = built (config_with_member_removed b current host)

  -- At most one member is removed in a round: mongod accepts one membership change at a time.
  pub one_prune :
      (ms : List RsMember) (g : GoneTracker) → count is_pruned (prune_members b p dwell ms g).1 ≤ 1
  unfolding prune_members
  one_prune [] g = omega arith
  one_prune (m ∷ ms) g =
      go (one_prune ms g) (one_prune ms (observe_reachable m.host g))
        (one_prune ms (probed_member b p m g))
    where
      go :
          count is_pruned (prune_members b p dwell ms g).1 ≤ 1
          → count is_pruned (prune_members b p dwell ms (observe_reachable m.host g)).1 ≤ 1
          → count is_pruned (prune_members b p dwell ms (probed_member b p m g)).1 ≤ 1
          → count is_pruned (prune_members b p dwell (m ∷ ms) g).1 ≤ 1
      go skipped seen asked =
          if_elim (λ (r : GoneTracker × List (Duty Document)). count is_pruned r.1 ≤ 1) m.is_self _
            _ (λ e. skipped)
            λ e.
              if_elim (λ (r : GoneTracker × List (Duty Document)). count is_pruned r.1 ≤ 1)
                m.healthy _ _ (λ f. seen)
                λ f.
                  if_elim (λ (r : GoneTracker × List (Duty Document)). count is_pruned r.1 ≤ 1)
                    (is_waived m.host p.now dwell (probed_member b p m g)) _ _
                    (λ w. one_reconfig (probed_member b p m g) m.host _ asked) (λ n. asked)
