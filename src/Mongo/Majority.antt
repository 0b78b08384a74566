-- ===== src/Mongo/Majority.antt =====
-- The fence of /role: two views of the same membership cannot both have a majority without a member
-- that both reach.
use mongo_ha.Base.{
  Bool-cases, length, count, suc, ◌+◌, ◌<◌, ◌≡◌, refl, ap, ◌⊎◌, inl, inr, true, ◌&&◌, List, [], ◌∷◌,
  map, arith,
}
use mongo_ha.Mongo.{RsMember, is_reachable, has_majority}

-- Some member is reachable in both views; the views list the members in the same order.
abbrev pub Shared : List RsMember → List RsMember → Type 0
Shared [] ys = ⊥
Shared (x ∷ xs) [] = ⊥
Shared (x ∷ xs) (y ∷ ys) =
    ((x.host ≡ y.host) × (is_reachable x ≡ true) × (is_reachable y ≡ true)) ⊎ Shared xs ys

Shared-of_count :
    (xs ys : List RsMember)
    → map (λ m. m.host) xs ≡ map (λ m. m.host) ys
    → length xs < count is_reachable xs + count is_reachable ys
    → Shared xs ys
Shared-of_count [] [] e h = absurd (omega arith)
Shared-of_count [] (y ∷ ys) e h = cc
Shared-of_count (x ∷ xs) [] e h = cc
Shared-of_count (x ∷ xs) (y ∷ ys) e h = elim (Bool-cases (is_reachable x && is_reachable y)) [
  | inl b ↦ inl (ground (arith, e), ground arith, ground arith)
  | inr n ↦ inr (Shared-of_count xs ys (ground (arith, e)) (ground arith))
]

length-hosts :
    (xs ys : List RsMember) → map (λ m. m.host) xs ≡ map (λ m. m.host) ys → length xs ≡ length ys
length-hosts [] [] e = refl
length-hosts [] (y ∷ ys) e = cc
length-hosts (x ∷ xs) [] e = cc
length-hosts (x ∷ xs) (y ∷ ys) e = ap suc (length-hosts xs ys (ground (arith, e)))

-- Two views that list the same members in the same order, and that each show a reachable majority,
-- share a member that both reach: two sides of a partition never both pass the fence.
pub majorities_overlap :
    (xs ys : List RsMember)
    → map (λ m. m.host) xs ≡ map (λ m. m.host) ys
    → has_majority xs ≡ true
    → has_majority ys ≡ true
    → Shared xs ys
unfolding has_majority
majorities_overlap xs ys e h k = Shared-of_count xs ys e (ground (arith, length-hosts xs ys e))
