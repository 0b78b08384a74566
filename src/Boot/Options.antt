-- ===== src/Boot/Options.antt =====
-- How often the arguments of a mongod name an option.
use mongo_ha.Base.{
  Any, Bool-cases, Option-cases, All, any, count, ℕ, ◌+◌, ◌≤◌, ◌<◌, ◌≡◌, refl, ap, ◌⊎◌, inl, inr,
  Bool, true, List, [], ◌∷◌, ◌++◌, arith, some,
}
use mongo_ha.Text.{text_eq_refl, Text, codes, text_eq, text_eq_iff}
use mongo_ha.Text.Number.{is_digit}
use mongo_ha.Text.Split.{first_piece}
use mongo_ha.WrapperConfig.{Config}
use mongo_ha.Passthrough.{option_name, is_option, args_set, overridden, merge_own_flags}
use mongo_ha.Passthrough.Merge.{Yields, merge_own_flags-Yields}
use mongo_ha.Recovery.{recovery_flags}
use mongo_ha.Boot.{own_flags, member_flags, mongod_argv}

count-append : (p : Text → Bool) (xs ys : List Text) → count p (xs ++ ys) ≡ count p xs + count p ys
count-append p [] ys = omega arith
count-append p (x ∷ xs) ys = ground (arith, count-append p xs ys)

count-positive : (p : Text → Bool) (xs : List Text) → any p xs ≡ true → 0 < count p xs
count-positive p [] h = cc
count-positive p (x ∷ xs) h = ground (arith, h, count-positive p xs)

-- How often an option is named.
unfoldable pub occurrences : Text → List Text → ℕ
occurrences name argv = count (is_option name) argv

Yields-unnamed :
    (args : List Text) (name : Text) (ts : List Text)
    → overridden args name ≡ true
    → All (Yields args) ts
    → count (is_option name) ts ≡ 0
Yields-unnamed args name [] o h = refl
Yields-unnamed args name (t ∷ ts) o (p, h) = elim (Option-cases (option_name t)) [
  | inl e ↦ rw e (Yields-unnamed args name ts o h)
  | inr (n, e) ↦ elim (Bool-cases (text_eq n name)) [
    | inl q ↦ absurd (ground (arith, o, p n e, ap (overridden args) ((text_eq_iff n name).0 q)))
    | inr q ↦ rw (e, q) (Yields-unnamed args name ts o h)
  ]
]

-- A token of the args names the option.
abbrev pub Names : List Text → Text → Type 0
Names args name = Any (λ t. option_name t ≡ some name) args

-- The args name the option, or the other of the two bind options.
abbrev pub Takes : List Text → Text → Type 0
Takes args name =
    Names args name
    ⊎ (((name ≡ codes "bind_ip_all") × Names args (codes "bind_ip"))
        ⊎ ((name ≡ codes "bind_ip") × Names args (codes "bind_ip_all")))

Names-args_set : (args : List Text) (name : Text) → Names args name → args_set args name ≡ true
unfolding args_set
Names-args_set [] name m = absurd m
Names-args_set (t ∷ ts) name (inl e) = rw (e, text_eq_refl name) refl
Names-args_set (t ∷ ts) name (inr m) = ground (arith, Names-args_set ts name m)

Takes-overridden : (args : List Text) (name : Text) → Takes args name → overridden args name ≡ true
unfolding overridden text_eq
Takes-overridden args name (inl m) = ground (arith, Names-args_set args name m)
Takes-overridden args name (inr (inl (e, m))) =
    rw e (ground (arith, Names-args_set args (codes "bind_ip") m))
Takes-overridden args name (inr (inr (e, m))) =
    rw e (ground (arith, Names-args_set args (codes "bind_ip_all") m))

-- An option that the args name, or conflict with as the other of the two bind options, is named by
-- the arguments of a standalone node's supervised mongod as often as by the args alone. The arguments
-- of a member's mongod name it as often as the args and the set options, `--replSet` and `--keyFile`
-- with their values, together: these are added after the merge.
pub merged_occurrences :
    (c : Config) (args : List Text) (name : Text)
    → Takes args name
    → (occurrences name (mongod_argv (merge_own_flags (own_flags c) args) args)
        ≡ occurrences name args)
      × (occurrences name (mongod_argv (merge_own_flags (own_flags c) args ++ member_flags c) args)
          ≡ occurrences name (member_flags c) + occurrences name args)
unfolding occurrences mongod_argv
merged_occurrences c args name m =
    let own : List Text = merge_own_flags (own_flags c) args in
    let none_left =
      Yields-unnamed args name own (Takes-overridden args name m)
        (merge_own_flags-Yields (own_flags c) args) in
    (
      omega (arith, count-append (is_option name) own args, none_left),
      omega (
        arith,
        count-append (is_option name) (own ++ member_flags c) args,
        count-append (is_option name) own (member_flags c),
        none_left,
      ),
    )

once-bind_ip : (c : Config) → 1 ≤ count (is_option (codes "bind_ip")) (recovery_flags c)
unfolding recovery_flags option_name text_eq is_digit first_piece
once-bind_ip c = ground arith

once-port : (c : Config) → 1 ≤ count (is_option (codes "port")) (recovery_flags c)
unfolding recovery_flags option_name text_eq is_digit first_piece
once-port c = ground arith

-- The recovery boot's flags are not merged: when the args set `--bind_ip` or `--port`, its mongod
-- sees that option at least twice.
pub recovery_repeats :
    (c : Config) (args : List Text) (name : Text)
    → (name ≡ codes "bind_ip") ⊎ (name ≡ codes "port")
    → args_set args name ≡ true
    → 2 ≤ occurrences name (mongod_argv (recovery_flags c) args)
unfolding occurrences mongod_argv args_set
recovery_repeats c args name n h =
    let once : 1 ≤ count (is_option name) (recovery_flags c) = elim n [
      | inl e ↦ rw e (once-bind_ip c)
      | inr e ↦ rw e (once-port c)
    ] in
    omega (
      arith,
      count-append (is_option name) (recovery_flags c) args,
      count-positive (is_option name) args h,
      once,
    )
