-- ===== src/Rs/Decide/Election.antt =====
-- The initiate decision across the nodes of a deploy: when every node sees every other one with no
-- set, one of them initiates and no other does.
use mongo_ha.Base.{
  if◌then◌else◌, Bool-cases, unwrap_or, All, In, filter, All-In, In-filter, In-map, ℕ, ◌≡◌, refl,
  sym, ap, ◌∙◌, ◌≢◌, ◌↔◌, ◌⊎◌, inl, inr, Bool, true, false, not, Option, List, [], ◌∷◌, map, arith,
}
use mathlib.Core.Bool.{false≢true}
use mathlib.Core.Path.{subst, subst₂}
use mongo_ha.Text.{Text, text_eq, text_eq_iff}
use mongo_ha.Rs.Decide.{no_set, safe_to_initiate, Peer, usize_max, peer_wins, decide}
use mongo_ha.Rs.Decide.Spec.{Outranks, Yields, peer_wins_iff, decide-safe_iff}

-- A node as the others see it: its name, its declared rank, whether it holds user data.
pub record Node : Type 0 where
  pub host : Text
  pub rank : Option ℕ
  pub has_data : Bool

abbrev pub as_peer : Node → Peer
as_peer n = record { host = n.host; rank = n.rank; standing = no_set n.has_data }

-- The peers of a node: every node but itself, each answering that it is in no set.
unfoldable pub peers_of : Node → List Node → List Peer
peers_of n nodes = map as_peer (filter (λ m. not (text_eq m.host n.host)) nodes)

no_set-injective : (a b : Bool) → no_set a ≡ no_set b → a ≡ b
no_set-injective a b e = cc

abbrev pub Initiates : List Node → Node → Type 0
Initiates nodes n = decide n.has_data n.rank (peers_of n nodes) ≡ safe_to_initiate

abbrev pub Before : Node → Node → Type 0
Before a b = Outranks a.has_data a.rank b.has_data b.rank

Before-total :
    (a b : Node) → unwrap_or a.rank usize_max ≢ unwrap_or b.rank usize_max → Before a b ⊎ Before b a
Before-total a b ne = go a.has_data refl b.has_data refl
  where
    go : (x : Bool) → a.has_data ≡ x → (y : Bool) → b.has_data ≡ y → Before a b ⊎ Before b a
    go true e false f = inl (inl (e, f))
    go false e true f = inr (inl (f, e))
    go true e true f = ground arith
    go false e false f = ground arith

In-peers_of :
    (nodes : List Node) (m n : Node)
    → In m nodes
    → m.host ≢ n.host
    → In (as_peer m) (peers_of n nodes)
unfolding peers_of
In-peers_of nodes m n i ne = In-map as_peer (filter (λ x. not (text_eq x.host n.host)) nodes) m (
    In-filter (λ x. not (text_eq x.host n.host)) nodes m i
      (ground (arith, ne, text_eq_iff m.host n.host)))

-- A node that initiates has no other node before it.
Initiates-first :
    (nodes : List Node) (m n : Node)
    → In m nodes
    → m.host ≢ n.host
    → Initiates nodes n
    → ¬ Before m n
Initiates-first nodes m n i ne safe before =
    let (d, e, behind) =
      All-In (Yields n.has_data n.rank) (peers_of n nodes) (as_peer m)
        ((decide-safe_iff n.has_data n.rank (peers_of n nodes)).0 safe)
        (In-peers_of nodes m n i ne) in
    behind (rw (no_set-injective m.has_data d e) at before)

-- In a deploy whose nodes all see each other without a set, two nodes with different names and
-- different declared ranks (an undeclared node ranks last) never both decide to initiate.
pub one_initiator :
    (nodes : List Node) (a b : Node)
    → In a nodes
    → In b nodes
    → a.host ≢ b.host
    → unwrap_or a.rank usize_max ≢ unwrap_or b.rank usize_max
    → Initiates nodes a
    → ¬ Initiates nodes b
one_initiator nodes a b ia ib hosts ranks safe_a safe_b = elim (Before-total a b ranks) [
  | inl h ↦ Initiates-first nodes a b ia hosts safe_b h
  | inr h ↦ Initiates-first nodes b a ib (λ e. hosts (sym e)) safe_a h
]

Before-irrefl : (a : Node) → ¬ Before a a
Before-irrefl a (inl (t, f)) = cc
Before-irrefl a (inr (e, lt)) = omega arith

Before-trans : (a b c : Node) → Before a b → Before b c → Before a c
Before-trans a b c (inl (t, f)) (inl (t', f')) = inl (t, f')
Before-trans a b c (inl (t, f)) (inr (e, lt)) = inl (t, ground arith)
Before-trans a b c (inr (e, lt)) (inl (t, f)) = inl (ground arith, f)
Before-trans a b c (inr (e, lt)) (inr (e', lt')) = inr (e ∙ e', omega arith)

before : Node → Node → Bool
before a b =
    peer_wins a.has_data b.has_data (unwrap_or a.rank usize_max) (unwrap_or b.rank usize_max)

before_iff : (a b : Node) → (before a b ≡ true) ↔ Before a b
unfolding before
before_iff a b = peer_wins_iff a.has_data b.has_data a.rank b.rank

-- The node that comes first among `n` and `ns`.
front : Node → List Node → Node
front n [] = n
front n (m ∷ ms) = front (if before m n then m else n) ms

front_take : (n m : Node) (ms : List Node) → before m n ≡ true → front n (m ∷ ms) ≡ front m ms
unfolding front
front_take n m ms t = ap (λ b. front (if b then m else n) ms) t

front_skip : (n m : Node) (ms : List Node) → before m n ≡ false → front n (m ∷ ms) ≡ front n ms
unfolding front
front_skip n m ms t = ap (λ b. front (if b then m else n) ms) t

front_nil : (n : Node) → front n [] ≡ n
unfolding front
front_nil n = refl

front-head : (n : Node) (ms : List Node) → (front n ms ≡ n) ⊎ Before (front n ms) n
front-head n [] = inl (front_nil n)
front-head n (m ∷ ms) = elim (Bool-cases (before m n)) [
  | inr o ↦ rw (front_skip n m ms o) (front-head n ms)
  | inl t ↦
      let b = (before_iff m n).0 t in
      rw (front_take n m ms t) (elim (front-head m ms) [
        | inl e ↦ inr (subst (λ x. Before x n) (sym e) b)
        | inr c ↦ inr (Before-trans (front m ms) m n c b)
      ])
]

front-In : (n : Node) (ms : List Node) → In (front n ms) (n ∷ ms)
front-In n [] = inl (front_nil n)
front-In n (m ∷ ms) = elim (Bool-cases (before m n)) [
  | inl t ↦ subst (λ f. In f (n ∷ m ∷ ms)) (sym (front_take n m ms t)) (inr (front-In m ms))
  | inr o ↦
      subst (λ f. In f (n ∷ m ∷ ms)) (sym (front_skip n m ms o)) (skip (front n ms) (front-In n ms))
]
  where
    skip : (f : Node) → In f (n ∷ ms) → In f (n ∷ m ∷ ms)
    skip f (inl e) = inl e
    skip f (inr i) = inr (inr i)

-- No node of the list comes before its front.
front-least : (n : Node) (ms : List Node) (x : Node) → In x (n ∷ ms) → ¬ Before x (front n ms)
front-least n ms x (inl e) b = elim (front-head n ms) [
  | inl h ↦ Before-irrefl n (subst₂ Before e h b)
  | inr c ↦
      Before-irrefl n (Before-trans n (front n ms) n (subst (λ y. Before y (front n ms)) e b) c)
]
front-least n [] x (inr i) b = absurd i
front-least n (m ∷ ms) x (inr i) b = elim (Bool-cases (before m n)) [
  | inl t ↦ front-least m ms x i (subst (Before x) (front_take n m ms t) b)
  | inr o ↦
      skipped o (subst (Before x) (front_skip n m ms o) b) (λ j. front-least n ms x (inr j))
        (λ e. front-least n ms n (inl refl) e) i
]
  where
    skipped :
        before m n ≡ false
        → Before x (front n ms)
        → (In x ms → ¬ Before x (front n ms))
        → (Before n (front n ms) → ⊥)
        → In x (m ∷ ms)
        → ⊥
    skipped o c rec head (inr j) = rec j c
    skipped o c rec head (inl e) = elim (front-head n ms) [
      | inl h ↦ false≢true (sym o ∙ (before_iff m n).1 (subst₂ Before e h c))
      | inr d ↦ false≢true (
          sym o
          ∙ (before_iff m n).1
              (Before-trans m (front n ms) n (subst (λ y. Before y (front n ms)) e c) d))
    ]

peers_of-Yields :
    (nodes : List Node) (n : Node)
    → ((x : Node) → In x nodes → ¬ Before x n)
    → (p : Node → Bool) → All (Yields n.has_data n.rank) (map as_peer (filter p nodes))
peers_of-Yields [] n first p = tt
peers_of-Yields (m ∷ ms) n first p = elim (Bool-cases (p m)) [
  | inl t ↦
      rw t ((m.has_data, refl, first m (inl refl)), peers_of-Yields ms n (λ x i. first x (inr i)) p)
  | inr o ↦ rw o (peers_of-Yields ms n (λ x i. first x (inr i)) p)
]

-- In every deploy of at least one node, where all nodes see each other without a set, some node
-- decides to initiate.
pub some_initiator : (n : Node) (ns : List Node) → (w : Node) × In w (n ∷ ns) × Initiates (n ∷ ns) w
unfolding peers_of
some_initiator n ns = (
  front n ns,
  front-In n ns,
  (decide-safe_iff (front n ns).has_data (front n ns).rank (peers_of (front n ns) (n ∷ ns))).1 (
      peers_of-Yields (n ∷ ns) (front n ns) (front-least n ns)
        (λ m. not (text_eq m.host (front n ns).host))),
)
