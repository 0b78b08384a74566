-- ===== src/Base/Lists.antt =====
-- Lists as the iterators of the source use them: tests into `Bool`, native counts.
use Prim.Native.Nat.{ℕ, suc, ◌+◌, ◌≤◌}
use mathlib.Core.Path.{◌∙◌, sym, ◌≡◌, refl, ap}
use mathlib.Core.Logic.{◌⊎◌, inl, inr}
use mathlib.Core.Bool.{Bool, true, false, ◌&&◌, ◌||◌}
use mathlib.Core.Option.{Option, none, some}
use mathlib.Core.List.{List, [], ◌∷◌, ◌++◌, map}
use native.Mathlib.Omega.{arith}
use mongo_ha.Base.Tests.{Option-cases, unwrap_or, Option_map, if◌then◌else◌, Bool-cases}

-- Every element satisfies `P`; membership, as data that can be taken apart.
abbrev pub All {ℓ κ} : {A : Type ℓ} → (A → Type κ) → List A → Type κ
All P [] = Unit
All P (x ∷ xs) = P x × All P xs

abbrev pub Any {ℓ} : {A : Type ℓ} → (A → Type 0) → List A → Type 0
Any P [] = ⊥
Any P (x ∷ xs) = P x ⊎ Any P xs

abbrev pub In : {A : Type 0} → A → List A → Type 0
In a xs = Any (λ x. a ≡ x) xs

module _ {ℓ} {A : Type ℓ} where
  abbrev pub length : List A → ℕ
  length [] = 0
  length (x ∷ xs) = suc (length xs)

  -- `iter().any`, `iter().all`, `iter().find`, `iter().filter().count()`
  abbrev pub any : (A → Bool) → List A → Bool
  any p [] = false
  any p (x ∷ xs) = p x || any p xs

  abbrev pub all : (A → Bool) → List A → Bool
  all p [] = true
  all p (x ∷ xs) = p x && all p xs

  abbrev pub find : (A → Bool) → List A → Option A
  find p [] = none
  find p (x ∷ xs) = if p x then some x else find p xs

  abbrev pub filter : (A → Bool) → List A → List A
  filter p [] = []
  filter p (x ∷ xs) = let rest = filter p xs in if p x then x ∷ rest else rest

  abbrev pub count : (A → Bool) → List A → ℕ
  count p [] = 0
  count p (x ∷ xs) = let rest = count p xs in if p x then suc rest else rest

  -- `iter().position`
  abbrev pub position : (A → Bool) → List A → Option ℕ
  position p [] = none
  position p (x ∷ xs) =
      let rest : Option ℕ = elim (position p xs) [ none ↦ none | some i ↦ some (suc i) ] in
      if p x then some 0 else rest

  pub length-append : (xs ys : List A) → length (xs ++ ys) ≡ length xs + length ys
  length-append [] ys = omega arith
  length-append (x ∷ xs) ys = omega (arith, length-append xs ys)

  pub count-le-length : (p : A → Bool) (xs : List A) → count p xs ≤ length xs
  count-le-length p [] = omega arith
  count-le-length p (x ∷ xs) = ground (arith, count-le-length p xs)

module _ {A : Type 0} where
  pub find-eq-some :
      (p : A → Bool) (xs : List A) (a : A) → find p xs ≡ some a → (p a ≡ true) × In a xs
  find-eq-some p [] a h = cc
  find-eq-some p (x ∷ xs) a h = elim (Bool-cases (p x)) [
    | inl e ↦ ground (arith, h, e)
    | inr e ↦ let r = find-eq-some p xs a (ground arith) in (r.0, inr r.1)
  ]

module _ {ℓ} {A : Type ℓ} where
  pub find-eq-none : (p : A → Bool) (xs : List A) → find p xs ≡ none → All (λ x. p x ≡ false) xs
  find-eq-none p [] h = tt
  find-eq-none p (x ∷ xs) h = elim (Bool-cases (p x)) [
    | inl e ↦ absurd (ground arith)
    | inr e ↦ (e, find-eq-none p xs (ground arith))
  ]

  pub any-eq-false : (p : A → Bool) (xs : List A) → any p xs ≡ false → All (λ x. p x ≡ false) xs
  any-eq-false p [] h = tt
  any-eq-false p (x ∷ xs) h = (ground arith, any-eq-false p xs (ground arith))

  pub any-of_All : (p : A → Bool) (xs : List A) → All (λ x. p x ≡ false) xs → any p xs ≡ false
  any-of_All p [] h = refl
  any-of_All p (x ∷ xs) (e, h) = rw e (any-of_All p xs h)

module _ {A : Type 0} where
  pub any-eq-true :
      (p : A → Bool) (xs : List A) → any p xs ≡ true → (a : A) × (p a ≡ true) × In a xs
  any-eq-true p [] h = cc
  any-eq-true p (x ∷ xs) h = elim (Bool-cases (p x)) [
    | inl e ↦ (x, e, inl refl)
    | inr e ↦ let r = any-eq-true p xs (ground arith) in (r.0, r.1, inr r.2)
  ]

module _ {ℓ} {A : Type ℓ} where
  pub all-eq-true : (p : A → Bool) (xs : List A) → all p xs ≡ true → All (λ x. p x ≡ true) xs
  all-eq-true p [] h = tt
  all-eq-true p (x ∷ xs) h = (ground arith, all-eq-true p xs (ground arith))

module _ {ℓ κ} {A : Type ℓ} {B : Type κ} where
  -- `iter().find_map`, `iter().filter_map`
  abbrev pub find_map : (A → Option B) → List A → Option B
  find_map f [] = none
  find_map f (x ∷ xs) = let rest = find_map f xs in elim (f x) [ some b ↦ some b | none ↦ rest ]

  abbrev pub filter_map : (A → Option B) → List A → List B
  filter_map f [] = []
  filter_map f (x ∷ xs) =
      let rest = filter_map f xs in elim (f x) [ some b ↦ b ∷ rest | none ↦ rest ]

module _ {ℓ κ} {A : Type ℓ} (P : A → Type κ) where
  pub All-append : (xs ys : List A) → All P xs → All P ys → All P (xs ++ ys)
  All-append [] ys _ k = k
  All-append (x ∷ xs) ys (p, h) k = (p, All-append xs ys h k)

module _ {κ} {A : Type 0} (P : A → Type κ) where
  pub All-In : (xs : List A) (a : A) → All P xs → In a xs → P a
  All-In [] a h m = absurd m
  All-In (x ∷ xs) a (p, h) (inl e) = rw e p
  All-In (x ∷ xs) a (p, h) (inr m) = All-In xs a h m

module _ {A : Type 0} (P : A → Type 0) where
  pub Any-In : (xs : List A) (a : A) → In a xs → P a → Any P xs
  Any-In [] a m p = absurd m
  Any-In (x ∷ xs) a (inl e) p = inl (rw e at p)
  Any-In (x ∷ xs) a (inr m) p = inr (Any-In xs a m p)

module _ {A : Type 0} where
  pub In-filter : (p : A → Bool) (xs : List A) (a : A) → In a xs → p a ≡ true → In a (filter p xs)
  In-filter p [] a m e = absurd m
  In-filter p (x ∷ xs) a (inl h) e = rw (← h) (rw e (inl refl))
  In-filter p (x ∷ xs) a (inr m) e = elim (Bool-cases (p x)) [
    | inl t ↦ rw t (inr (In-filter p xs a m e))
    | inr f ↦ rw f (In-filter p xs a m e)
  ]

module _ {A B : Type 0} where
  pub In-map : (f : A → B) (xs : List A) (a : A) → In a xs → In (f a) (map f xs)
  In-map f [] a m = absurd m
  In-map f (x ∷ xs) a (inl e) = inl (ap f e)
  In-map f (x ∷ xs) a (inr m) = inr (In-map f xs a m)

pub List-cases {ℓ} :
    {A : Type ℓ} (xs : List A) → (xs ≡ []) ⊎ ((a : A) × (rest : List A) × (xs ≡ a ∷ rest))
List-cases [] = inl refl
List-cases (x ∷ xs) = inr (x, xs, refl)

module _ {ℓ κ} {A : Type ℓ} {B : Type κ} where
  pub filter_map-append :
      (f : A → Option B) (xs ys : List A)
      → filter_map f (xs ++ ys) ≡ filter_map f xs ++ filter_map f ys
  filter_map-append f [] ys = refl
  filter_map-append f (x ∷ xs) ys = ground (arith, filter_map-append f xs ys)

  -- A filter on the images is a filter on the elements.
  pub filter_map-filter :
      (f : A → Option B) (p : A → Bool) (q : B → Bool)
      → ((a : A) → p a ≡ unwrap_or (Option_map q (f a)) true)
      → (xs : List A) → filter_map f (filter p xs) ≡ filter q (filter_map f xs)
  filter_map-filter f p q h [] = refl
  filter_map-filter f p q h (x ∷ xs) = ground (arith, h x, filter_map-filter f p q h xs)

module _ {ℓ} {A : Type ℓ} where
  pub filter-append :
      (p : A → Bool) (xs ys : List A) → filter p (xs ++ ys) ≡ filter p xs ++ filter p ys
  filter-append p [] ys = refl
  filter-append p (x ∷ xs) ys = ground (arith, filter-append p xs ys)

module _ {κ} {A : Type 0} (P : A → Type κ) where
  pub All-of_In : (xs : List A) → ((a : A) → In a xs → P a) → All P xs
  All-of_In [] h = tt
  All-of_In (x ∷ xs) h = (h x (inl refl), All-of_In xs (λ a m. h a (inr m)))

module _ {A B : Type 0} where
  pub filter_map-In :
      (f : A → Option B) (xs : List A) (a : A) (b : B)
      → In a xs
      → f a ≡ some b
      → In b (filter_map f xs)
  filter_map-In f [] a b m e = absurd m
  filter_map-In f (x ∷ xs) a b (inl h) e = rw (ap f (sym h) ∙ e, filter_map) (inl refl)
  filter_map-In f (x ∷ xs) a b (inr m) e = elim (Option-cases (f x)) [
    | inl n ↦ rw (n, filter_map) (filter_map-In f xs a b m e)
    | inr (y, n) ↦ rw (n, filter_map) (inr (filter_map-In f xs a b m e))
  ]

  pub In-filter_map :
      (f : A → Option B) (xs : List A) (b : B)
      → In b (filter_map f xs)
      → (a : A) × In a xs × (f a ≡ some b)
  In-filter_map f [] b m = absurd m
  In-filter_map f (x ∷ xs) b m = go (f x) refl m (In-filter_map f xs b)
    where
      go :
          (o : Option B)
          → f x ≡ o
          → In b (elim o [ some y ↦ y ∷ filter_map f xs | none ↦ filter_map f xs ])
          → (In b (filter_map f xs) → (a : A) × In a xs × (f a ≡ some b))
          → (a : A) × In a (x ∷ xs) × (f a ≡ some b)
      go none e k rec = let r = rec k in (r.0, inr r.1, r.2)
      go (some y) e (inl k) rec = (x, inl refl, e ∙ ap some (sym k))
      go (some y) e (inr k) rec = let r = rec k in (r.0, inr r.1, r.2)

module _ {A : Type 0} where
  pub In-append_left : (a : A) (xs ys : List A) → In a xs → In a (xs ++ ys)
  In-append_left a [] ys m = absurd m
  In-append_left a (x ∷ xs) ys (inl e) = inl e
  In-append_left a (x ∷ xs) ys (inr m) = inr (In-append_left a xs ys m)

  pub In-append_right : (a : A) (xs ys : List A) → In a ys → In a (xs ++ ys)
  In-append_right a [] ys m = m
  In-append_right a (x ∷ xs) ys m = inr (In-append_right a xs ys m)

  pub In-append : (a : A) (xs ys : List A) → In a (xs ++ ys) → In a xs ⊎ In a ys
  In-append a [] ys m = inr m
  In-append a (x ∷ xs) ys (inl e) = inl (inl e)
  In-append a (x ∷ xs) ys (inr m) = elim (In-append a xs ys m) [
    | inl h ↦ inl (inr h)
    | inr h ↦ inr h
  ]

  -- A list that holds one value under a test.
  pub In-guard : (b : Bool) (a x : A) → In a (if b then x ∷ [] else []) → (b ≡ true) × (a ≡ x)
  In-guard true a x (inl e) = (refl, e)
  In-guard true a x (inr m) = absurd m
  In-guard false a x m = absurd m

  pub guard-In : (b : Bool) (a x : A) → b ≡ true → a ≡ x → In a (if b then x ∷ [] else [])
  guard-In true a x t e = inl e
  guard-In false a x t e = cc

  pub append_nil : (xs : List A) → xs ++ [] ≡ xs
  append_nil [] = refl
  append_nil (x ∷ xs) = ap (◌∷◌ x) (append_nil xs)

  pub append_assoc : (xs ys zs : List A) → (xs ++ ys) ++ zs ≡ xs ++ (ys ++ zs)
  append_assoc [] ys zs = refl
  append_assoc (x ∷ xs) ys zs = ap (◌∷◌ x) (append_assoc xs ys zs)
