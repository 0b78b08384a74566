-- ===== src/Text/Split.antt =====
-- `str::split` on one character: the pieces, of which there is always at least one.
use mongo_ha.Base.{
  All, false, arith, Bool-cases, Option-cases, inl, inr, ◌++◌, ℕ, ◌≡◌, refl, Option, none, some,
  List, [], ◌∷◌, ◌==◌, if◌then◌else◌, ◌∙◌, ap,
}
use mongo_ha.Text.{Text, codes}

-- The first piece, and the others.
split_pieces : ℕ → Text → Text × List Text
split_pieces sep [] = ([], [])
split_pieces sep (c ∷ s) =
    let (piece, rest) = split_pieces sep s in
    if c == sep then ([], piece ∷ rest) else (c ∷ piece, rest)

unfoldable pub split : ℕ → Text → List Text
unfolding split_pieces
split sep s = let (piece, rest) = split_pieces sep s in piece ∷ rest

-- `split(sep).next()`, which is never `None`.
unfoldable pub first_piece : ℕ → Text → Text
unfolding split_pieces
first_piece sep s = (split_pieces sep s).0

-- `str::split_once` on one character.
unfoldable pub split_once : ℕ → Text → Option (Text × Text)
split_once sep [] = none
split_once sep (c ∷ s) =
    let rest : Option (Text × Text) = elim (split_once sep s) [
      | none ↦ none
      | some (a, b) ↦ some (c ∷ a, b)
    ] in
    if c == sep then some ([], s) else rest

-- `str::rsplit_once` on one character: at its last occurrence.
unfoldable pub rsplit_once : ℕ → Text → Option (Text × Text)
rsplit_once sep [] = none
rsplit_once sep (c ∷ s) =
    let here : Option (Text × Text) = if c == sep then some ([], s) else none in
    elim (rsplit_once sep s) [ some (a, b) ↦ some (c ∷ a, b) | none ↦ here ]

split_seeds : split b',' (codes "a:1,,b") ≡ codes "a:1" ∷ [] ∷ codes "b" ∷ []
unfolding split
split_seeds = refl

rsplit_last : rsplit_once b':' (codes "a:b:c") ≡ some (codes "a:b", codes "c")
unfolding rsplit_once
rsplit_last = refl

-- Without the separator there is one piece; at the separator the first piece ends.
split_pieces_one :
    (sep : ℕ) (s : Text) → All (λ c. (c == sep) ≡ false) s → split_pieces sep s ≡ (s, [])
unfolding split_pieces
split_pieces_one sep [] h = refl
split_pieces_one sep (c ∷ s) (p, h) = ground (arith, p, split_pieces_one sep s h)

split_pieces_join :
    (sep : ℕ) (s t : Text)
    → All (λ c. (c == sep) ≡ false) s
    → split_pieces sep (s ++ sep ∷ t) ≡ (s, (split_pieces sep t).0 ∷ (split_pieces sep t).1)
unfolding split_pieces
split_pieces_join sep [] t h = ground arith
split_pieces_join sep (c ∷ s) t (p, h) = ground (arith, p, split_pieces_join sep s t h)

pub split_join_step :
    (sep : ℕ) (s t : Text)
    → All (λ c. (c == sep) ≡ false) s
    → split sep (s ++ sep ∷ t) ≡ s ∷ split sep t
unfolding split
split_join_step sep s t h = ground (arith, split_pieces_join sep s t h)

split_pieces_lack :
    (sep : ℕ) (s : Text)
    → All (λ c. (c == sep) ≡ false) (split_pieces sep s).0
      × All (λ x. All (λ c. (c == sep) ≡ false) x) (split_pieces sep s).1
unfolding split_pieces
split_pieces_lack sep [] = (tt, tt)
split_pieces_lack sep (c ∷ s) =
    let (p, r) = split_pieces_lack sep s in
    elim (Bool-cases (c == sep)) [ inl e ↦ rw e (tt, (p, r)) | inr e ↦ rw e ((e, p), r) ]

-- Every piece lacks the separator.
pub split_lacks : (sep : ℕ) (s : Text) → All (λ x. All (λ c. (c == sep) ≡ false) x) (split sep s)
unfolding split
split_lacks sep s = split_pieces_lack sep s

pub split_one : (sep : ℕ) (s : Text) → All (λ c. (c == sep) ≡ false) s → split sep s ≡ s ∷ []
unfolding split
split_one sep s h = ground (arith, split_pieces_one sep s h)

pub split_two :
    (sep : ℕ) (s t : Text)
    → All (λ c. (c == sep) ≡ false) s
    → All (λ c. (c == sep) ≡ false) t
    → split sep (s ++ sep ∷ t) ≡ s ∷ t ∷ []
unfolding split
split_two sep s t h k = ground (arith, split_pieces_join sep s t h, split_pieces_one sep t k)

-- What `split_once` gives is joined by the separator, which the first part does not hold.
pub split_once-eq-some :
    (sep : ℕ) (s a b : Text)
    → split_once sep s ≡ some (a, b)
    → (s ≡ a ++ sep ∷ b) × All (λ c. (c == sep) ≡ false) a
unfolding split_once
split_once-eq-some sep [] a b h = cc
split_once-eq-some sep (c ∷ s) a b h = elim (Bool-cases (c == sep)) [
  | inl e ↦ (ground (arith, e, h), ground (arith, e, h))
  | inr e ↦ elim (Option-cases (split_once sep s)) [
    | inl n ↦ absurd (ground (arith, e, n, h))
    | inr ((x, y), n) ↦
        let (p, q) = split_once-eq-some sep s x y n in
        (ground (arith, e, n, h, p), ground (arith, e, n, h, q))
  ]
]

pub split_once_join :
    (sep : ℕ) (a b : Text)
    → All (λ c. (c == sep) ≡ false) a
    → split_once sep (a ++ sep ∷ b) ≡ some (a, b)
unfolding split_once
split_once_join sep [] b h = ground arith
split_once_join sep (c ∷ a) b (p, h) = ground (arith, p, split_once_join sep a b h)

-- `join` with a separator.
unfoldable pub join : ℕ → List Text → Text
join sep [] = []
join sep (x ∷ []) = x
join sep (x ∷ y ∷ rest) = x ++ sep ∷ join sep (y ∷ rest)

-- What `join` put together comes apart again.
pub split-join :
    (sep : ℕ) (x : Text) (xs : List Text)
    → All (λ c. (c == sep) ≡ false) x
    → All (λ x. All (λ c. (c == sep) ≡ false) x) xs
    → split sep (join sep (x ∷ xs)) ≡ x ∷ xs
unfolding split join
split-join sep x [] h k = split_one sep x h
split-join sep x (y ∷ ys) h (p, k) =
    split_join_step sep x (join sep (y ∷ ys)) h ∙ ap (◌∷◌ x) (split-join sep y ys p k)
