-- ===== src/KernelCompat/Tunables.antt =====
-- The tunables of the child entry by entry, and the kernels that get them.
use mathlib.Core.Path.{subst, ap, sym}
use mongo_ha.Base.{
  sym, ap, ◌≢◌, ◌∙◌, ◌==◌, unwrap_or, if_elim, All, filter, All-append, ℕ, ◌≤◌, ◌<◌, ◌≡◌, refl, ◌↔◌,
  ◌⊎◌, Bool, true, false, Option, List, [], ◌∷◌, ◌++◌, arith, Bool-cases, inl, ==_iff, inr,
}
use mongo_ha.Text.{Text}
use mongo_ha.Text.Split.{split, split_lacks, split-join}
use mongo_ha.KernelCompat.{
  in_affected_range, rseq_fallback, is_kept, kept_entries, with_rseq_fallback, rseq_key,
  starts_with, codes, join,
}

-- A text without the separator.
abbrev Lacks : ℕ → Text → Type 0
Lacks sep s = All (λ c. (c == sep) ≡ false) s

All-filter : (P : Text → Type 0) (p : Text → Bool) (xs : List Text) → All P xs → All P (filter p xs)
All-filter P p [] h = tt
All-filter P p (x ∷ xs) (q, h) =
    if_elim (All P) (p x) (x ∷ filter p xs) (filter p xs) (λ e. (q, All-filter P p xs h))
      (λ e. All-filter P p xs h)

kept-fallback :
    (xs : List Text) → (x : Text) × (ys : List Text) × (xs ++ rseq_fallback ∷ [] ≡ x ∷ ys)
kept-fallback [] = (rseq_fallback, [], refl)
kept-fallback (x ∷ xs) = (x, xs ++ rseq_fallback ∷ [], refl)

entries_lack :
    (inherited : Option Text) → All (Lacks b':') (kept_entries inherited ++ rseq_fallback ∷ [])
entries_lack inherited =
    All-append (Lacks b':') (kept_entries inherited) (rseq_fallback ∷ [])
      (All-filter (Lacks b':') is_kept (split b':' (unwrap_or inherited []))
        (split_lacks b':' (unwrap_or inherited [])))
      (ground arith, tt)

-- The entries of a list that stay, in their order: an empty one goes, one that begins with the key of
-- the rseq tunable goes, and any other stays.
pub data Stays : List Text → List Text → Type 0 where
  none_left : Stays [] []
  without_empty : {xs ys : List Text} → Stays xs ys → Stays ([] ∷ xs) ys
  without_rseq :
      (value : Text) {xs ys : List Text}
      → Stays xs ys
      → Stays ((codes "glibc.pthread.rseq=" ++ value) ∷ xs) ys
  stays :
      (entry : Text) {xs ys : List Text}
      → entry ≢ []
      → ((value : Text) → entry ≢ codes "glibc.pthread.rseq=" ++ value)
      → Stays xs ys
      → Stays (entry ∷ xs) (entry ∷ ys)

starts_with-eq-true : (p s : Text) → starts_with p s ≡ true → (value : Text) × (s ≡ p ++ value)
unfolding starts_with
starts_with-eq-true [] s h = (s, refl)
starts_with-eq-true (c ∷ p) [] h = cc
starts_with-eq-true (c ∷ p) (d ∷ s) h =
    let (value, e) = starts_with-eq-true p s (ground (arith, h)) in
    let same : c ≡ d = (==_iff c d).0 (ground (arith, h)) in
    (value, ap (λ x. x ∷ s) (sym same) ∙ ap (◌∷◌ c) e)

starts_with-append : (p value : Text) → starts_with p (p ++ value) ≡ true
unfolding starts_with
starts_with-append [] value = refl
starts_with-append (c ∷ p) value = ground (arith, starts_with-append p value)

rseq-Stays :
    (value : Text) {xs ys : List Text}
    → Stays xs ys
    → (filter is_kept ((rseq_key ++ value) ∷ xs) ≡ filter is_kept xs)
      × Stays ((rseq_key ++ value) ∷ xs) ys
rseq-Stays value h = (rw (starts_with-append rseq_key value) refl, without_rseq value h)

filter-Stays : (xs : List Text) → Stays xs (filter is_kept xs)
filter-Stays [] = none_left
filter-Stays ([] ∷ xs) = without_empty (filter-Stays xs)
filter-Stays ((c ∷ s) ∷ xs) = elim (Bool-cases (starts_with rseq_key (c ∷ s))) [
  | inl e ↦
      let (value, q) = starts_with-eq-true rseq_key (c ∷ s) e in
      let (same, h) = rseq-Stays value (filter-Stays xs) in
      subst (λ x. Stays (x ∷ xs) (filter is_kept (x ∷ xs))) (sym q)
        (subst (Stays ((rseq_key ++ value) ∷ xs)) (sym same) h)
  | inr e ↦ rw e (
      stays (c ∷ s) (λ q. cc)
        (λ value q. absurd (ground (arith, starts_with-append rseq_key value, q, e)))
        (filter-Stays xs))
]

-- The tunables of the child, taken apart at the colons, are the inherited entries that are neither
-- empty nor an rseq setting, in their order, and then the one setting rseq=1.
pub with_rseq_fallback-entries :
    (inherited : Option Text)
    → (kept : List Text) × (split b':' (with_rseq_fallback inherited)
        ≡ kept ++ codes "glibc.pthread.rseq=1" ∷ [])
      × Stays (split b':' (unwrap_or inherited [])) kept
unfolding with_rseq_fallback
with_rseq_fallback-entries inherited =
    let (x, ys, e) = kept-fallback (kept_entries inherited) in
    let (p, r) = subst (All (Lacks b':')) e (entries_lack inherited) in
    (
      kept_entries inherited,
      ap (λ t. split b':' (join b':' t)) e ∙ split-join b':' x ys p r ∙ sym e,
      filter-Stays (split b':' (unwrap_or inherited [])),
    )

-- The affected kernels are 6.19 and the later 6 series, and 7.0 up to 7.0.13.
pub in_affected_range_iff :
    (a b c : ℕ)
    → (in_affected_range (a, b, c) ≡ true) ↔ (((a ≡ 6) × (19 ≤ b)) ⊎ ((a ≡ 7) × (b ≡ 0) × (c < 14)))
unfolding in_affected_range
in_affected_range_iff a b c = (λ h. ground (arith, h), λ h. ground (arith, h))
