-- ===== src/Maps.antt =====
-- `HashMap<String, V>` and `HashSet<String>` as association lists. The program never depends on the
-- order in which a map is walked, so only the laws of lookup matter.
use mongo_ha.Base.{
  ◌≡◌, refl, inl, inr, Bool, false, ◌||◌, Option, none, some, List, [], ◌∷◌, arith, if◌then◌else◌,
  Bool-cases, In, true,
}
use mongo_ha.Text.{Text, text_eq, text_eq_iff, text_eq_refl}

module _ {ℓ} {V : Type ℓ} where
  -- `HashMap::get`
  unfoldable pub get : Text → List (Text × V) → Option V
  get k [] = none
  get k ((j, v) ∷ m) = if text_eq j k then some v else get k m

  -- `HashMap::remove`
  unfoldable pub remove : Text → List (Text × V) → List (Text × V)
  remove k [] = []
  remove k ((j, v) ∷ m) = let rest = remove k m in if text_eq j k then rest else (j, v) ∷ rest

  -- `HashMap::insert`
  unfoldable pub insert : Text → V → List (Text × V) → List (Text × V)
  unfolding remove
  insert k v m = (k, v) ∷ remove k m

  -- `HashMap::retain`, by a test on the key.
  unfoldable pub retain : (Text → Bool) → List (Text × V) → List (Text × V)
  retain p [] = []
  retain p ((j, v) ∷ m) = let rest = retain p m in if p j then (j, v) ∷ rest else rest

  pub get-nil : (k : Text) → get k [] ≡ none
  unfolding get
  get-nil k = refl

  pub get-remove :
      (k j : Text) (m : List (Text × V))
      → get j (remove k m) ≡ (if text_eq k j then none else get j m)
  unfolding get remove
  get-remove k j [] = ground arith
  get-remove k j ((i, v) ∷ m) =
      ground (arith, text_eq_iff i k, text_eq_iff i j, text_eq_iff k j, get-remove k j m)

  pub get-insert :
      (k j : Text) (v : V) (m : List (Text × V))
      → get j (insert k v m) ≡ (if text_eq k j then some v else get j m)
  unfolding get insert
  get-insert k j v m = ground (arith, get-remove k j m)

  pub get-retain :
      (p : Text → Bool) (j : Text) (m : List (Text × V))
      → get j (retain p m) ≡ (if p j then get j m else none)
  unfolding get retain
  get-retain p j [] = ground arith
  get-retain p j ((i, v) ∷ m) = elim (Bool-cases (text_eq i j)) [
    | inl e ↦ rw ((text_eq_iff i j).0 e) (ground (arith, text_eq_refl j, get-retain p j m))
    | inr e ↦ ground (arith, e, get-retain p j m)
  ]

pub ruleset map_laws = (get-nil, get-remove, get-insert, get-retain, text_eq_refl)

-- `HashSet::contains`, also `slice::contains`.
unfoldable pub contains : Text → List Text → Bool
contains k [] = false
contains k (j ∷ s) = text_eq j k || contains k s

-- `HashSet::insert`; whether the value was new is `not (contains k s)`.
unfoldable pub add : Text → List Text → List Text
unfolding contains
add k s = if contains k s then s else k ∷ s

-- `HashSet::retain`.
unfoldable pub retain_set : (Text → Bool) → List Text → List Text
retain_set p [] = []
retain_set p (j ∷ s) = let rest = retain_set p s in if p j then j ∷ rest else rest

pub contains-nil : (k : Text) → contains k [] ≡ false
unfolding contains
contains-nil k = refl

pub contains-In : (k : Text) (s : List Text) → In k s → contains k s ≡ true
unfolding contains
contains-In k [] m = absurd m
contains-In k (j ∷ s) (inl e) = rw (e, text_eq_refl j) refl
contains-In k (j ∷ s) (inr m) = ground (arith, contains-In k s m)

pub contains-add :
    (k j : Text) (s : List Text) → contains j (add k s) ≡ (text_eq k j || contains j s)
unfolding contains add
contains-add k j s = elim (Bool-cases (contains k s)) [
  | inl e ↦ ground (arith, e, text_eq_iff k j)
  | inr e ↦ ground (arith, e)
]

pub contains-retain :
    (p : Text → Bool) (j : Text) (s : List Text)
    → contains j (retain_set p s) ≡ (if p j then contains j s else false)
unfolding contains retain_set
contains-retain p j [] = ground arith
contains-retain p j (i ∷ s) = elim (Bool-cases (text_eq i j)) [
  | inl e ↦ rw ((text_eq_iff i j).0 e) (ground (arith, text_eq_refl j, contains-retain p j s))
  | inr e ↦ ground (arith, e, contains-retain p j s)
]
