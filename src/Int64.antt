-- ===== src/Int64.antt =====
-- Signed machine integers as integers in two's complement range, with the wrap-around of a release
-- build written out.
use mongo_ha.Base.{
  In, ◌∙◌, ltb, leb, ◌==◌, if◌then◌else◌, ==_iff, Bool-cases, All, ℕ, zero, suc, ◌+◌, ◌-◌, ◌%◌, ◌^◌,
  ◌≡◌, refl, ap, ◌≢◌, ◌↔◌, inl, inr, Bool, true, false, Option, none, some, List, [], ◌∷◌, arith,
}

-- `negsuc n` is -(n + 1).
pub data ℤ : Type 0 where
  pos : ℕ → ℤ
  negsuc : ℕ → ℤ

abbrev pub i64_max : ℕ
i64_max = 2 ^ 63 - 1

-- `n + 1` on an i64.
unfoldable pub add_one : ℤ → ℤ
add_one (pos n) = if n == i64_max then negsuc i64_max else pos (n + 1)
add_one (negsuc zero) = pos 0
add_one (negsuc (suc n)) = negsuc n

unfoldable pub leb_ℤ : ℤ → ℤ → Bool
leb_ℤ (pos a) (pos b) = leb a b
leb_ℤ (pos a) (negsuc b) = false
leb_ℤ (negsuc a) (pos b) = true
leb_ℤ (negsuc a) (negsuc b) = leb b a

unfoldable pub eq_ℤ : ℤ → ℤ → Bool
eq_ℤ (pos a) (pos b) = a == b
eq_ℤ (pos a) (negsuc b) = false
eq_ℤ (negsuc a) (pos b) = false
eq_ℤ (negsuc a) (negsuc b) = a == b

pub eq_ℤ_iff : (a b : ℤ) → (eq_ℤ a b ≡ true) ↔ (a ≡ b)
unfolding eq_ℤ
eq_ℤ_iff (pos a) (pos b) = ground arith
eq_ℤ_iff (pos a) (negsuc b) = ground arith
eq_ℤ_iff (negsuc a) (pos b) = ground arith
eq_ℤ_iff (negsuc a) (negsuc b) = ground arith

-- `as i32`: the low 32 bits, read as a signed number.
unfoldable pub as_i32 : ℤ → ℤ
as_i32 (pos n) =
    let low = n % 2 ^ 32 in if ltb low (2 ^ 31) then pos low else negsuc (2 ^ 32 - 1 - low)
as_i32 (negsuc n) =
    let low = n % 2 ^ 32 in if ltb low (2 ^ 31) then negsuc low else pos (2 ^ 32 - 1 - low)

-- `n.max(0) as usize`
unfoldable pub clamp_usize : ℤ → ℕ
clamp_usize (pos n) = n
clamp_usize (negsuc n) = 0

-- `iter().max()`
unfoldable pub maximum : List ℤ → Option ℤ
unfolding leb_ℤ
maximum [] = none
maximum (x ∷ xs) = elim (maximum xs) [ none ↦ some x | some m ↦ some (if leb_ℤ x m then m else x) ]

abbrev pub ◌≤ℤ◌ : ℤ → ℤ → Type 0
◌≤ℤ◌ a b = leb_ℤ a b ≡ true

leb_ℤ_refl : (a : ℤ) → leb_ℤ a a ≡ true
unfolding leb_ℤ
leb_ℤ_refl (pos a) = ground arith
leb_ℤ_refl (negsuc a) = ground arith

leb_ℤ_trans : (a b c : ℤ) → leb_ℤ a b ≡ true → leb_ℤ b c ≡ true → leb_ℤ a c ≡ true
unfolding leb_ℤ
leb_ℤ_trans (pos a) (pos b) (pos c) h k = ground arith
leb_ℤ_trans (pos a) (pos b) (negsuc c) h k = cc
leb_ℤ_trans (pos a) (negsuc b) c h k = cc
leb_ℤ_trans (negsuc a) (pos b) (pos c) h k = refl
leb_ℤ_trans (negsuc a) (pos b) (negsuc c) h k = cc
leb_ℤ_trans (negsuc a) (negsuc b) (pos c) h k = refl
leb_ℤ_trans (negsuc a) (negsuc b) (negsuc c) h k = ground arith

leb_ℤ_total : (a b : ℤ) → leb_ℤ a b ≡ false → leb_ℤ b a ≡ true
unfolding leb_ℤ
leb_ℤ_total (pos a) (pos b) h = ground arith
leb_ℤ_total (pos a) (negsuc b) h = refl
leb_ℤ_total (negsuc a) (pos b) h = cc
leb_ℤ_total (negsuc a) (negsuc b) h = ground arith

All-le_mono :
    (xs : List ℤ) (a b : ℤ)
    → leb_ℤ a b ≡ true
    → All (λ x. leb_ℤ x a ≡ true) xs
    → All (λ x. leb_ℤ x b ≡ true) xs
All-le_mono [] a b h k = tt
All-le_mono (x ∷ xs) a b h (k, ks) = (leb_ℤ_trans x a b k h, All-le_mono xs a b h ks)

empty-All : (xs : List ℤ) (m : ℤ) → maximum xs ≡ none → All (λ y. leb_ℤ y m ≡ true) xs
unfolding maximum
empty-All [] m e = tt
empty-All (x ∷ xs) m e = absurd (ground arith)

-- Every element is at most the maximum.
pub maximum_bounds : (xs : List ℤ) (m : ℤ) → maximum xs ≡ some m → All (λ x. leb_ℤ x m ≡ true) xs
unfolding maximum
maximum_bounds [] m h = cc
maximum_bounds (x ∷ xs) m h = go (maximum xs) refl (maximum_bounds xs)
  where
    go :
        (o : Option ℤ)
        → maximum xs ≡ o
        → ((k : ℤ) → maximum xs ≡ some k → All (λ y. leb_ℤ y k ≡ true) xs)
        → All (λ y. leb_ℤ y m ≡ true) (x ∷ xs)
    go none e rec =
        let xm : x ≡ m = ground (arith, e, h) in (rw xm (leb_ℤ_refl m), empty-All xs m e)
    go (some k) e rec = elim (Bool-cases (leb_ℤ x k)) [
      | inl t ↦
          let km : k ≡ m = ground (arith, e, h, t) in
          (rw (← km) t, All-le_mono xs k m (rw km (leb_ℤ_refl m)) (rec k e))
      | inr f ↦
          let xm : x ≡ m = ground (arith, e, h, f) in
          (rw xm (leb_ℤ_refl m), All-le_mono xs k m (rw (← xm) (leb_ℤ_total x k f)) (rec k e))
    ]

-- One more than an upper bound is above every element.
pub add_one-fresh : (m x : ℤ) → leb_ℤ x m ≡ true → m ≢ pos i64_max → x ≢ add_one m
unfolding leb_ℤ add_one
add_one-fresh (pos n) (pos k) h ne e = elim (Bool-cases (n == i64_max)) [
  | inl t ↦ ne (ap pos ((==_iff n i64_max).0 t))
  | inr f ↦ ground arith
]
add_one-fresh (pos n) (negsuc k) h ne e = elim (Bool-cases (n == i64_max)) [
  | inl t ↦ ne (ap pos ((==_iff n i64_max).0 t))
  | inr f ↦ ground arith
]
add_one-fresh (negsuc zero) (pos k) h ne e = cc
add_one-fresh (negsuc zero) (negsuc k) h ne e = cc
add_one-fresh (negsuc (suc n)) (pos k) h ne e = cc
add_one-fresh (negsuc (suc n)) (negsuc k) h ne e = ground arith

pub maximum-In : (xs : List ℤ) (m : ℤ) → maximum xs ≡ some m → In m xs
unfolding maximum
maximum-In [] m h = absurd (ground arith)
maximum-In (x ∷ xs) m h = go (maximum xs) refl (maximum-In xs)
  where
    go : (o : Option ℤ) → maximum xs ≡ o → ((k : ℤ) → maximum xs ≡ some k → In k xs) → In m (x ∷ xs)
    go none e rec = inl (ground (arith, e, h))
    go (some k) e rec = elim (Bool-cases (leb_ℤ x k)) [
      | inl t ↦ let km : k ≡ m = ground (arith, e, h, t) in inr (rec m (e ∙ ap some km))
      | inr f ↦ inl (ground (arith, e, h, f))
    ]

pub maximum-eq-none : (xs : List ℤ) (a : ℤ) → maximum xs ≡ none → ¬ In a xs
unfolding maximum
maximum-eq-none [] a h m = m
maximum-eq-none (x ∷ xs) a h m = absurd (ground arith)
