-- ===== src/Passthrough/Merge.antt =====
-- The merged flags against the options one by one.
use mongo_ha.Base.{
  if◌then◌else◌, Option-cases, is_some, is_some_and, if_elim, All, filter, ◌≡◌, refl, sym, ap, ◌∙◌,
  inl, inr, Bool, true, false, not, Option, none, some, List, [], ◌∷◌, ◌++◌, arith,
}
use mongo_ha.Text.{Text}
use mongo_ha.Passthrough.{
  option_name, overridden, Shape, plain, paired, bare, shape_of, merge_own_flags, shape_from,
}

-- A token that is no option, or an option with its value.
pub data Item : Type 0 where
  word : Text → Item
  setting : Text → Text → Option Text → Item

abbrev pub tokens : Item → List Text
tokens (word t) = t ∷ []
tokens (setting name flag none) = flag ∷ []
tokens (setting name flag (some v)) = flag ∷ v ∷ []

unfoldable pub items : List Text → List Item
unfolding option_name
items [] = []
items (flag ∷ []) = elim (shape_of flag none) [
  | plain ↦ word flag ∷ []
  | paired name ↦ []
  | bare name ↦ setting name flag none ∷ []
]
items (flag ∷ next ∷ rest) = elim (shape_of flag (some next)) [
  | plain ↦ word flag ∷ items (next ∷ rest)
  | paired name ↦ setting name flag (some next) ∷ items rest
  | bare name ↦ setting name flag none ∷ items (next ∷ rest)
]

abbrev pub keeps : List Text → Item → Bool
keeps args (word t) = true
keeps args (setting name flag value) = not (overridden args name)

abbrev pub flatten : List Item → List Text
flatten [] = []
flatten (i ∷ is) = tokens i ++ flatten is

-- The two flags that follow one another: the merge goes on after the value, or after the option.
merge_step :
    (args : List Text) (flag next : Text) (later after : List Text) (is js : List Item) (s : Shape)
    → later ≡ flatten (filter (keeps args) is)
    → after ≡ flatten (filter (keeps args) js)
    → (elim s [
      | plain ↦ flag ∷ after
      | paired name ↦ if overridden args name then later else flag ∷ next ∷ later
      | bare name ↦ if overridden args name then after else flag ∷ after
    ])
      ≡ flatten (
          filter (keeps args) (elim s [
            | plain ↦ word flag ∷ js
            | paired name ↦ setting name flag (some next) ∷ is
            | bare name ↦ setting name flag none ∷ js
          ]))
merge_step args flag next later after is js plain e f = ap (◌∷◌ flag) f
merge_step args flag next later after is js (paired name) e f = ground (arith, e)
merge_step args flag next later after is js (bare name) e f = ground (arith, f)

merge_last :
    (args : List Text) (flag : Text) (s : Shape)
    → (elim s [
      | plain ↦ flag ∷ []
      | paired name ↦ []
      | bare name ↦ if overridden args name then [] else flag ∷ []
    ])
      ≡ flatten (
          filter (keeps args) (elim s [
            | plain ↦ word flag ∷ []
            | paired name ↦ []
            | bare name ↦ setting name flag none ∷ []
          ]))
merge_last args flag plain = refl
merge_last args flag (paired name) = refl
merge_last args flag (bare name) = ground arith

-- The merge keeps, in order and with their values, the words and the options of the wrapper's own
-- flags that the args neither set nor conflict with.
pub merge_own_flags-items :
    (own args : List Text) → merge_own_flags own args ≡ flatten (filter (keeps args) (items own))
unfolding merge_own_flags items
merge_own_flags-items [] args = refl
merge_own_flags-items (flag ∷ []) args = merge_last args flag (shape_of flag none)
merge_own_flags-items (flag ∷ next ∷ rest) args =
    merge_step args flag next (merge_own_flags rest args) (merge_own_flags (next ∷ rest) args)
      (items rest) (items (next ∷ rest)) (shape_of flag (some next))
      (merge_own_flags-items rest args) (merge_own_flags-items (next ∷ rest) args)

-- A token names no option that the args set or conflict with.
abbrev pub Yields : List Text → Text → Type 0
Yields args t = (n : Text) → option_name t ≡ some n → overridden args n ≡ false

-- What a shape says of the two tokens.
Shaped : Text → Option Text → Shape → Type 0
Shaped flag next plain = option_name flag ≡ none
Shaped flag next (paired name) =
    (option_name flag ≡ some name) × ((v : Text) → next ≡ some v → option_name v ≡ none)
Shaped flag next (bare name) = option_name flag ≡ some name

value_plain : (v : Text) → not (is_some (option_name v)) ≡ true → option_name v ≡ none
value_plain v h = elim (Option-cases (option_name v)) [
  | inl e ↦ e
  | inr (n, e) ↦ absurd (ground (arith, e, h))
]

shape_of-Shaped : (flag : Text) (next : Option Text) → Shaped flag next (shape_of flag next)
unfolding Shaped
shape_of-Shaped flag next = go (option_name flag) refl
  where
    go : (o : Option Text) → option_name flag ≡ o → Shaped flag next (shape_from o next)
    go none e = e
    go (some name) e =
        if_elim (Shaped flag next) (is_some_and next (λ n. not (is_some (option_name n))))
          (paired name) (bare name)
          (λ t. (
            e,
            λ v q.
                value_plain v
                  (ap (λ x. is_some_and x (λ n. not (is_some (option_name n)))) (sym q) ∙ t),
          ))
          (λ t. e)

plain-Yields : (args : List Text) (t : Text) → option_name t ≡ none → Yields args t
plain-Yields args t e n h = absurd (ground (arith, e, h))

kept-Yields :
    (args : List Text) (t name : Text)
    → option_name t ≡ some name
    → overridden args name ≡ false
    → Yields args t
kept-Yields args t name e k n h = let same : name ≡ n = ground (arith, e, h) in rw (← same) k

merge-All_step :
    (args : List Text) (flag next : Text) (later after : List Text) (s : Shape)
    → Shaped flag (some next) s
    → All (Yields args) later
    → All (Yields args) after
    → All (Yields args) (elim s [
      | plain ↦ flag ∷ after
      | paired name ↦ if overridden args name then later else flag ∷ next ∷ later
      | bare name ↦ if overridden args name then after else flag ∷ after
    ])
unfolding Shaped
merge-All_step args flag next later after plain h l a = (plain-Yields args flag h, a)
merge-All_step args flag next later after (paired name) (h, v) l a =
    if_elim (All (Yields args)) (overridden args name) later (flag ∷ next ∷ later) (λ e. l)
      (λ e. (kept-Yields args flag name h e, (plain-Yields args next (v next refl), l)))
merge-All_step args flag next later after (bare name) h l a =
    if_elim (All (Yields args)) (overridden args name) after (flag ∷ after) (λ e. a)
      (λ e. (kept-Yields args flag name h e, a))

merge-All_last :
    (args : List Text) (flag : Text) (s : Shape)
    → Shaped flag none s
    → All (Yields args) (elim s [
      | plain ↦ flag ∷ []
      | paired name ↦ []
      | bare name ↦ if overridden args name then [] else flag ∷ []
    ])
unfolding Shaped
merge-All_last args flag plain h = (plain-Yields args flag h, tt)
merge-All_last args flag (paired name) h = tt
merge-All_last args flag (bare name) h =
    if_elim (All (Yields args)) (overridden args name) [] (flag ∷ []) (λ e. tt)
      (λ e. (kept-Yields args flag name h e, tt))

-- No token of the merged flags names an option that the args set, nor the other of the two bind
-- options: mongod, which is given the merged flags and the args, sees none of them twice.
pub merge_own_flags-Yields : (own args : List Text) → All (Yields args) (merge_own_flags own args)
unfolding merge_own_flags
merge_own_flags-Yields [] args = tt
merge_own_flags-Yields (flag ∷ []) args =
    merge-All_last args flag (shape_of flag none) (shape_of-Shaped flag none)
merge_own_flags-Yields (flag ∷ next ∷ rest) args =
    merge-All_step args flag next (merge_own_flags rest args) (merge_own_flags (next ∷ rest) args)
      (shape_of flag (some next)) (shape_of-Shaped flag (some next))
      (merge_own_flags-Yields rest args) (merge_own_flags-Yields (next ∷ rest) args)
