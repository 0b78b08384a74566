-- ===== src/Rs/Gone/Proof.antt =====
-- A waiver rests on a proof: the name was gone at every observation for the whole dwell.
use mongo_ha.Base.{
  if◌then◌else◌, Option-cases, or_else, All, Instant, ℕ, ◌-◌, ◌≤◌, ◌≡◌, refl, sym, ap, ◌∙◌, ◌≢◌,
  ◌↔◌, ◌⊎◌, inl, inr, true, Option, none, some, List, [], ◌∷◌, ◌++◌, arith,
}
use mongo_ha.Text.{Text, text_eq, text_eq_iff, text_eq_refl}
use mongo_ha.Maps.{get, get-nil, get-remove, get-insert}
use mongo_ha.DnsProbe.{NameVerdict, gone, exists_or_unknown}
use mongo_ha.Rs.Gone.{GoneTracker, new, observe, observe_reachable, is_waived}

-- What a round reports to the tracker about one peer.
pub data Event : Type 0 where
  probed : Text → NameVerdict → Instant → Event
  reachable : Text → Event

unfoldable pub apply : Event → GoneTracker → GoneTracker
unfolding observe observe_reachable
apply (probed host v now) t = observe host v now t
apply (reachable host) t = observe_reachable host t

-- The events of a history, oldest first.
unfoldable pub run : List Event → GoneTracker → GoneTracker
run [] t = t
run (e ∷ es) t = run es (apply e t)

pub run-append : (es fs : List Event) (t : GoneTracker) → run (es ++ fs) t ≡ run fs (run es t)
unfolding run
run-append [] fs t = refl
run-append (e ∷ es) fs t = run-append es fs (apply e t)

-- The event says nothing against the name being gone: it concerns another one, or found it gone.
abbrev pub Consistent : Text → Event → Type 0
Consistent host (probed h gone now) = Unit {0}
Consistent host (probed h exists_or_unknown now) = host ≢ h
Consistent host (reachable h) = host ≢ h

abbrev clock : Text → GoneTracker → Option Instant
clock host t = get host t.gone_since

-- The clock of a host after one event.
clock_step : Text → Event → Option Instant → Option Instant
clock_step host (probed h gone now) c = if text_eq h host then or_else c (some now) else c
clock_step host (probed h exists_or_unknown now) c = if text_eq h host then none else c
clock_step host (reachable h) c = if text_eq h host then none else c

clock-apply :
    (host : Text) (e : Event) (t : GoneTracker)
    → clock host (apply e t) ≡ clock_step host e (clock host t)
unfolding apply clock_step
clock-apply host (probed h gone now) t =
    ground (arith, text_eq_iff h host, get-insert h host now t.gone_since)
clock-apply host (probed h exists_or_unknown now) t = get-remove h host t.gone_since
clock-apply host (reachable h) t = get-remove h host t.gone_since

-- The name was found gone at time `t`, and no event since then spoke against it.
abbrev pub GoneSince : Text → Instant → List Event → Type 0
GoneSince host t es =
    (before : List Event) × (after : List Event) × (es ≡ before ++ probed host gone t ∷ after)
    × All (Consistent host) after

clock_step_inv :
    (host : Text) (e : Event) (c : Option Instant) (t : Instant)
    → clock_step host e c ≡ some t
    → ((c ≡ some t) × Consistent host e) ⊎ (e ≡ probed host gone t)
unfolding clock_step
clock_step_inv host (probed h gone now) none t k = ground (arith, text_eq_iff h host)
clock_step_inv host (probed h gone now) (some s) t k = ground (arith, text_eq_iff h host)
clock_step_inv host (probed h exists_or_unknown now) c t k =
    inl (ground (arith, text_eq_iff h host), λ e. ground (arith, text_eq_iff h host))
clock_step_inv host (reachable h) c t k =
    inl (ground (arith, text_eq_iff h host), λ e. ground (arith, text_eq_iff h host))

clock-GoneSince :
    (host : Text) (es : List Event) (g : GoneTracker) (t : Instant)
    → clock host (run es g) ≡ some t
    → ((clock host g ≡ some t) × All (Consistent host) es) ⊎ GoneSince host t es
unfolding run
clock-GoneSince host [] g t h = inl (h, tt)
clock-GoneSince host (e ∷ es) g t h = elim (clock-GoneSince host es (apply e g) t h) [
  | inr (b, a, q, c) ↦ inr (e ∷ b, a, ap (◌∷◌ e) q, c)
  | inl (k, c) ↦ elim (clock_step_inv host e (clock host g) t (sym (clock-apply host e g) ∙ k)) [
    | inl (o, d) ↦ inl (o, (d, c))
    | inr q ↦ inr ([], es, ap (λ x. x ∷ es) q, c)
  ]
]

-- A waiver has its proof: from a tracker that has seen nothing, a host is waived at `now` only if
-- it was found gone at some time `t` that lies a whole dwell before `now`, and since then nothing
-- found it present or reachable.
pub waived-GoneSince :
    (host : Text) (es : List Event) (now dwell : ℕ)
    → is_waived host now dwell (run es new) ≡ true
    → (t : Instant) × GoneSince host t es × (dwell ≤ now - t)
unfolding is_waived
waived-GoneSince host es now dwell h = elim (Option-cases (clock host (run es new))) [
  | inl e ↦ absurd (ground arith)
  | inr (t, e) ↦ (t, since t (clock-GoneSince host es new t e), ground arith)
]
  where
    since :
        (t : Instant)
        → ((clock host new ≡ some t) × All (Consistent host) es) ⊎ GoneSince host t es
        → GoneSince host t es
    since t (inr g) = g
    since t (inl (e, c)) = absurd (ground (arith, get-nil {0} {V = Instant} host))

clock_step_keeps :
    (host : Text) (e : Event) (t : Instant)
    → Consistent host e
    → clock_step host e (some t) ≡ some t
unfolding clock_step
clock_step_keeps host (probed h gone now) t k = ground arith
clock_step_keeps host (probed h exists_or_unknown now) t k = ground (arith, text_eq_iff h host)
clock_step_keeps host (reachable h) t k = ground (arith, text_eq_iff h host)

clock-run :
    (host : Text) (es : List Event) (g : GoneTracker) (t : Instant)
    → All (Consistent host) es
    → clock host g ≡ some t
    → clock host (run es g) ≡ some t
unfolding run
clock-run host [] g t c h = h
clock-run host (e ∷ es) g t (c, cs) h =
    clock-run host es (apply e g) t cs
      (clock-apply host e g ∙ ap (clock_step host e) h ∙ clock_step_keeps host e t c)

-- The clock is exact: a host with no clock that is found gone at `t`, and then never found present
-- or reachable, is waived at `now` exactly when the dwell has passed since `t`, however often it
-- was found gone again.
pub is_waived-run :
    (host : Text) (es : List Event) (g : GoneTracker) (t now dwell : ℕ)
    → get host g.gone_since ≡ none
    → All (Consistent host) es
    → (is_waived host now dwell (run (probed host gone t ∷ es) g) ≡ true) ↔ (dwell ≤ now - t)
unfolding run is_waived
is_waived-run host es g t now dwell h c =
    let k : clock host (run es (apply (probed host gone t) g)) ≡ some t =
      clock-run host es (apply (probed host gone t) g) t c (
        clock-apply host (probed host gone t) g
        ∙ (unfold clock_step in ground (arith, h, text_eq_refl host))) in
    ground arith
