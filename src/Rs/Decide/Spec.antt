-- ===== src/Rs/Decide/Spec.antt =====
-- What `decide` decides, stated without its tests.
use mongo_ha.Base.{
  Bool-cases, Option-cases, or_else, unwrap_or, All, Any, In, any, find, find-eq-some, find-eq-none,
  any-eq-false, find_map, ℕ, ◌<◌, ◌≡◌, refl, ◌≢◌, ◌↔◌, ◌⊎◌, inl, inr, Bool, true, false, Option,
  none, some, List, [], ◌∷◌, arith, Any-In,
}
use mongo_ha.Text.{Text}
use mongo_ha.Rs.Decide.{
  PeerStanding, in_set, no_set, unknown, join_existing, safe_to_initiate, defer_to, Peer, usize_max,
  is_in_set, is_unknown, primary_of, peer_wins, outranks_us, decide,
}

-- The order of the initiate tie-break: a node with user data before one without, and among equals
-- the one that the seeds declare first. A node that the seeds do not declare ranks last.
abbrev pub Outranks : Bool → Option ℕ → Bool → Option ℕ → Type 0
Outranks d r d' r' =
    ((d ≡ true) × (d' ≡ false)) ⊎ ((d ≡ d') × (unwrap_or r usize_max < unwrap_or r' usize_max))

-- The peer answered that it has no set, and does not come before this node.
abbrev pub Yields : Bool → Option ℕ → Peer → Type 0
Yields d r p = (has_data : Bool) × (p.standing ≡ no_set has_data) × (¬ Outranks has_data p.rank d r)

pub peer_wins_iff :
    (d d' : Bool) (r r' : Option ℕ)
    → (peer_wins d d' (unwrap_or r usize_max) (unwrap_or r' usize_max) ≡ true) ↔ Outranks d r d' r'
unfolding peer_wins
peer_wins_iff true true r r' = ground arith
peer_wins_iff true false r r' = ground arith
peer_wins_iff false true r r' = ground arith
peer_wins_iff false false r r' = ground arith

Yields_lem :
    (d : Bool) (r : Option ℕ) (p : Peer)
    → Yields d r p
    → (is_in_set p.standing ≡ false)
      × (is_unknown p.standing ≡ false)
      × (outranks_us d (unwrap_or r usize_max) p ≡ false)
unfolding outranks_us
Yields_lem d r p (h, e, n) =
    rw (e, outranks_us)
      (
        refl,
        refl,
        elim (Bool-cases (peer_wins h d (unwrap_or p.rank usize_max) (unwrap_or r usize_max))) [
          | inl w ↦ absurd (n ((peer_wins_iff h d p.rank r).0 w))
          | inr w ↦ w
        ],
      )

Yields-of_tests :
    (d : Bool) (r : Option ℕ) (p : Peer) (s : PeerStanding)
    → p.standing ≡ s
    → is_in_set s ≡ false
    → is_unknown s ≡ false
    → outranks_us d (unwrap_or r usize_max) p ≡ false
    → Yields d r p
unfolding outranks_us
Yields-of_tests d r p (in_set h) e i u w = absurd (ground arith)
Yields-of_tests d r p (no_set h) e i u w =
    (h, e, λ o. ground (arith, (peer_wins_iff h d p.rank r).1 o))
Yields-of_tests d r p unknown e i u w = absurd (ground arith)

module _ (d : Bool) (r : Option ℕ) where
  Yields-find :
      (peers : List Peer) → All (Yields d r) peers → find (λ p. is_in_set p.standing) peers ≡ none
  Yields-find [] h = refl
  Yields-find (p ∷ ps) (y, h) = ground (arith, Yields_lem d r p y, Yields-find ps h)

  Yields-any :
      (peers : List Peer) → All (Yields d r) peers → any (λ p. is_unknown p.standing) peers ≡ false
  Yields-any [] h = refl
  Yields-any (p ∷ ps) (y, h) = ground (arith, Yields_lem d r p y, Yields-any ps h)

  Yields-rival :
      (peers : List Peer)
      → All (Yields d r) peers
      → find (outranks_us d (unwrap_or r usize_max)) peers ≡ none
  Yields-rival [] h = refl
  Yields-rival (p ∷ ps) (y, h) = ground (arith, Yields_lem d r p y, Yields-rival ps h)

  All-Yields :
      (peers : List Peer)
      → All (λ p. is_in_set p.standing ≡ false) peers
      → All (λ p. is_unknown p.standing ≡ false) peers
      → All (λ p. outranks_us d (unwrap_or r usize_max) p ≡ false) peers
      → All (Yields d r) peers
  All-Yields [] i u w = tt
  All-Yields (p ∷ ps) (i, is) (u, us) (w, ws) =
      (Yields-of_tests d r p p.standing refl i u w, All-Yields ps is us ws)

  decide-safe_of_Yields :
      (peers : List Peer) → All (Yields d r) peers → decide d r peers ≡ safe_to_initiate
  unfolding decide
  decide-safe_of_Yields peers h =
      ground (arith, Yields-find peers h, Yields-any peers h, Yields-rival peers h)

  Yields-of_decide :
      (peers : List Peer) → decide d r peers ≡ safe_to_initiate → All (Yields d r) peers
  unfolding decide
  Yields-of_decide peers h =
      All-Yields peers (find-eq-none (λ p. is_in_set p.standing) peers (ground arith))
        (any-eq-false (λ p. is_unknown p.standing) peers (ground arith))
        (find-eq-none (outranks_us d (unwrap_or r usize_max)) peers (ground arith))

  -- `decide` lets a node initiate exactly when every peer answered that it is in no set and none of
  -- them comes before the node in the order of user data and then declared seed rank.
  pub decide-safe_iff :
      (peers : List Peer) → (decide d r peers ≡ safe_to_initiate) ↔ All (Yields d r) peers
  decide-safe_iff peers = (Yields-of_decide peers, decide-safe_of_Yields peers)

find-is_in_set :
    (peers : List Peer) (p : Peer) (primary : Option Text)
    → In p peers
    → p.standing ≡ in_set primary
    → find (λ q. is_in_set q.standing) peers ≢ none
find-is_in_set [] p primary m e n = absurd m
find-is_in_set (q ∷ qs) p primary (inl h) e n = ground (arith, h, e)
find-is_in_set (q ∷ qs) p primary (inr m) e n = ground (arith, find-is_in_set qs p primary m e)

is_in_set_inv :
    (s : PeerStanding) → is_in_set s ≡ true → (primary : Option Text) × (s ≡ in_set primary)
is_in_set_inv (in_set primary) h = (primary, refl)
is_in_set_inv (no_set d) h = cc
is_in_set_inv unknown h = cc

-- Some peer of the list is in a set.
abbrev pub SetExists : List Peer → Type 0
SetExists peers = (p : Peer) × (primary : Option Text) × In p peers × (p.standing ≡ in_set primary)

decide-join :
    (d : Bool) (r : Option ℕ) (peers : List Peer)
    → SetExists peers
    → (primary : Option Text) × (decide d r peers ≡ join_existing primary)
unfolding decide
decide-join d r peers (p, primary, m, e) =
    elim (Option-cases (find (λ q. is_in_set q.standing) peers)) [
      | inl n ↦ absurd (find-is_in_set peers p primary m e n)
      | inr (q, f) ↦ (
        or_else (find_map (λ x. primary_of x.standing) peers) (primary_of q.standing),
        rw (f, decide),
      )
    ]

SetExists-of_decide :
    (d : Bool) (r : Option ℕ) (peers : List Peer) (primary : Option Text)
    → decide d r peers ≡ join_existing primary
    → SetExists peers
unfolding decide
SetExists-of_decide d r peers primary e =
    elim (Option-cases (find (λ q. is_in_set q.standing) peers)) [
      | inl n ↦ absurd (ground arith)
      | inr (q, f) ↦
          let (i, m) = find-eq-some (λ q. is_in_set q.standing) peers q f in
          let (h, s) = is_in_set_inv q.standing i in (q, h, m, s)
    ]

-- `decide` joins exactly when some peer is in a set, whatever the other peers answered.
pub decide-join_iff :
    (d : Bool) (r : Option ℕ) (peers : List Peer)
    → ((primary : Option Text) × (decide d r peers ≡ join_existing primary)) ↔ SetExists peers
decide-join_iff d r peers = (λ j. SetExists-of_decide d r peers j.0 j.1, decide-join d r peers)

-- The primary that a join names is one that a peer in the set named, and is missing only when no
-- peer names one.
abbrev pub NamesPrimary : List Peer → Option Text → Type 0
NamesPrimary peers none = All (λ p. primary_of p.standing ≡ none) peers
NamesPrimary peers (some h) = Any (λ p. p.standing ≡ in_set (some h)) peers

primary_of_inv : (s : PeerStanding) (h : Text) → primary_of s ≡ some h → s ≡ in_set (some h)
primary_of_inv (in_set p) h e = cc
primary_of_inv (no_set d) h e = cc
primary_of_inv unknown h e = cc

find_map-NamesPrimary :
    (peers : List Peer) → NamesPrimary peers (find_map (λ p. primary_of p.standing) peers)
find_map-NamesPrimary [] = tt
find_map-NamesPrimary (p ∷ ps) =
    go (primary_of p.standing) refl (find_map (λ q. primary_of q.standing) ps)
      (find_map-NamesPrimary ps)
  where
    go :
        (o : Option Text)
        → primary_of p.standing ≡ o
        → (rest : Option Text) → NamesPrimary ps rest
        → NamesPrimary (p ∷ ps) (elim o [ some b ↦ some b | none ↦ rest ])
    go (some h) e rest n = inl (primary_of_inv p.standing h e)
    go none e none n = (e, n)
    go none e (some h) n = inr n

find-none_primary :
    (peers : List Peer) (p : Peer)
    → find (λ q. is_in_set q.standing) peers ≡ some p
    → find_map (λ q. primary_of q.standing) peers ≡ none
    → primary_of p.standing ≡ none
find-none_primary [] p f n = cc
find-none_primary (q ∷ qs) p f n = elim (Bool-cases (is_in_set q.standing)) [
  | inl i ↦ ground (arith, find-none_primary qs p)
  | inr o ↦ ground (arith, find-none_primary qs p)
]

-- The primary that a join names is one that some peer in the set named; a join without one happens
-- only when no peer of the round names a primary.
pub join-NamesPrimary :
    (d : Bool) (r : Option ℕ) (peers : List Peer) (primary : Option Text)
    → decide d r peers ≡ join_existing primary
    → NamesPrimary peers primary
unfolding decide
join-NamesPrimary d r peers primary e =
    elim (Option-cases (find (λ q. is_in_set q.standing) peers)) [
      | inl n ↦ absurd (ground arith)
      | inr (q, f) ↦
          go q f (find_map (λ x. primary_of x.standing) peers) refl (find_map-NamesPrimary peers)
    ]
  where
    go :
        (q : Peer)
        → find (λ x. is_in_set x.standing) peers ≡ some q
        → (o : Option Text) → find_map (λ x. primary_of x.standing) peers ≡ o
        → NamesPrimary peers o
        → NamesPrimary peers primary
    go q f (some h) m n = let eq : primary ≡ some h = ground arith in rw eq n
    go q f none m n =
        let eq : primary ≡ none = ground (arith, find-none_primary peers q f m) in rw eq n

outranks_us_inv :
    (d : Bool) (r : Option ℕ) (p : Peer)
    → outranks_us d (unwrap_or r usize_max) p ≡ true
    → (h : Bool) × (p.standing ≡ no_set h) × Outranks h p.rank d r
unfolding outranks_us
outranks_us_inv d r p w = go p.standing refl
  where
    go :
        (s : PeerStanding)
        → p.standing ≡ s
        → (h : Bool) × (p.standing ≡ no_set h) × Outranks h p.rank d r
    go (in_set h) e = absurd (ground arith)
    go (no_set h) e = (h, e, (peer_wins_iff h d p.rank r).0 (ground arith))
    go unknown e = absurd (ground arith)

-- The peer of that name answered that it has no set, and comes before the node.
abbrev pub Rival : Bool → Option ℕ → Text → Peer → Type 0
Rival d r host p = (p.host ≡ host) × ((h : Bool) × (p.standing ≡ no_set h) × Outranks h p.rank d r)

-- A node defers only to a peer without a set that comes before it, and only when every peer
-- answered and none is in a set.
pub decide-defer :
    (d : Bool) (r : Option ℕ) (peers : List Peer) (host : Text)
    → decide d r peers ≡ defer_to host
    → Any (Rival d r host) peers
      × All (λ p. is_in_set p.standing ≡ false) peers
      × All (λ p. is_unknown p.standing ≡ false) peers
unfolding decide
decide-defer d r peers host e = (
  elim (Option-cases (find (outranks_us d (unwrap_or r usize_max)) peers)) [
    | inl n ↦ absurd (ground arith)
    | inr (p, f) ↦
        let (w, m) = find-eq-some (outranks_us d (unwrap_or r usize_max)) peers p f in
        Any-In (Rival d r host) peers p m (ground arith, outranks_us_inv d r p w)
  ],
  find-eq-none (λ p. is_in_set p.standing) peers (ground arith),
  any-eq-false (λ p. is_unknown p.standing) peers (ground arith),
)
