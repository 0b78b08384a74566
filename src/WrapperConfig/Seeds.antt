-- ===== src/WrapperConfig/Seeds.antt =====
-- The declared seeds: the peers of a node, and the order among the members.
use mongo_ha.Base.{
  if◌then◌else◌, Bool-cases, Option-cases, In, filter, position, In-filter, ℕ, ◌≡◌, refl, ap, ◌∙◌,
  ◌↔◌, inl, inr, Bool, true, false, not, some, List, [], ◌∷◌, arith,
}
use mongo_ha.Text.{Text}
use mongo_ha.Text.Case.{eq_ignore_ascii_case, eq_ignore_ascii_case_symm, eq_ignore_ascii_case_trans}
use mongo_ha.WrapperConfig.{Config, seed_hosts, peer_hosts, seed_rank}

position-eq-some :
    {A : Type 0} (p : A → Bool) (xs : List A) (i : ℕ)
    → position p xs ≡ some i
    → (a : A) × In a xs × (p a ≡ true)
position-eq-some p [] i h = cc
position-eq-some p (x ∷ xs) i h = elim (Bool-cases (p x)) [
  | inl e ↦ (x, inl refl, e)
  | inr e ↦ elim (Option-cases (position p xs)) [
    | inl n ↦ absurd (ground (arith, e, n, h))
    | inr (j, n) ↦ let (a, m, q) = position-eq-some p xs j n in (a, inr m, q)
  ]
]

-- Two tests whose first success is at one position hold of one element.
position-same :
    {A : Type 0} (p q : A → Bool) (xs : List A) (i : ℕ)
    → position p xs ≡ some i
    → position q xs ≡ some i
    → (a : A) × (p a ≡ true) × (q a ≡ true)
position-same p q [] i h k = cc
position-same p q (x ∷ xs) i h k = elim (Bool-cases (p x)) [
  | inl e ↦ elim (Bool-cases (q x)) [
    | inl f ↦ (x, e, f)
    | inr f ↦ elim (Option-cases (position q xs)) [
      | inl n ↦ absurd (ground (arith, f, n, k))
      | inr (j, n) ↦ absurd (ground (arith, e, f, n, h, k))
    ]
  ]
  | inr e ↦ elim (Option-cases (position p xs)) [
    | inl n ↦ absurd (ground (arith, e, n, h))
    | inr (j, n) ↦ elim (Bool-cases (q x)) [
      | inl f ↦ absurd (ground (arith, e, f, n, h, k))
      | inr f ↦ elim (Option-cases (position q xs)) [
        | inl m ↦ absurd (ground (arith, f, m, k))
        | inr (l, m) ↦ position-same p q xs j n (ground (arith, e, f, n, m, h, k))
      ]
    ]
  ]
]

position_ext :
    {A : Type 0} (p q : A → Bool)
    → ((x : A) → p x ≡ q x)
    → (xs : List A) → position p xs ≡ position q xs
position_ext p q h [] = refl
position_ext p q h (x ∷ xs) = rw (h x, position_ext p q h xs) refl

filter-In :
    {A : Type 0} (p : A → Bool) (xs : List A) (a : A) → In a (filter p xs) → In a xs × (p a ≡ true)
filter-In p [] a m = absurd m
filter-In p (x ∷ xs) a m = go (p x) refl m (filter-In p xs a)
  where
    go :
        (b : Bool)
        → p x ≡ b
        → In a (if b then x ∷ filter p xs else filter p xs)
        → (In a (filter p xs) → In a xs × (p a ≡ true))
        → In a (x ∷ xs) × (p a ≡ true)
    go true e (inl q) rec = (inl q, ap p q ∙ e)
    go true e (inr m) rec = let (i, q) = rec m in (inr i, q)
    go false e m rec = let (i, q) = rec m in (inr i, q)

same_class :
    (x a b : Text)
    → eq_ignore_ascii_case a b ≡ true
    → eq_ignore_ascii_case x a ≡ eq_ignore_ascii_case x b
same_class x a b e = ground (
  arith,
  e,
  eq_ignore_ascii_case_symm a b,
  eq_ignore_ascii_case_trans x a b,
  eq_ignore_ascii_case_trans x b a,
)

-- Two hosts that are declared have the same rank exactly when they are one host up to ASCII case.
pub seed_rank-same_iff :
    (c : Config) (a b : Text) (i j : ℕ)
    → seed_rank c a ≡ some i
    → seed_rank c b ≡ some j
    → (i ≡ j) ↔ (eq_ignore_ascii_case a b ≡ true)
unfolding seed_rank
seed_rank-same_iff c a b i j h k = (to, from)
  where
    to : i ≡ j → eq_ignore_ascii_case a b ≡ true
    to e =
        let (x, p, q) =
          position-same (λ x. eq_ignore_ascii_case x a) (λ x. eq_ignore_ascii_case x b)
            (seed_hosts c) i h (ground (arith, e, k)) in
        eq_ignore_ascii_case_trans a x b (ground (arith, eq_ignore_ascii_case_symm a x, p)) q

    from : eq_ignore_ascii_case a b ≡ true → i ≡ j
    from e = ground (
      arith,
      h,
      k,
      position_ext (λ x. eq_ignore_ascii_case x a) (λ x. eq_ignore_ascii_case x b)
          (λ x. same_class x a b e) (seed_hosts c),
    )

-- A host that `seed_hosts` declares is a peer exactly when it is not this node's private domain up
-- to ASCII case, and every peer is declared.
pub peer_hosts_iff :
    (c : Config) (h : Text)
    → In h (peer_hosts c)
      ↔ (In h (seed_hosts c) × (eq_ignore_ascii_case h c.private_domain ≡ false))
unfolding peer_hosts
peer_hosts_iff c h = (
  λ m.
      let (i, q) =
        filter-In (λ h. not (eq_ignore_ascii_case h c.private_domain)) (seed_hosts c) h m in
      (i, ground (arith, q)),
  λ (i, q).
      In-filter (λ h. not (eq_ignore_ascii_case h c.private_domain)) (seed_hosts c) h i (rw q refl),
)
