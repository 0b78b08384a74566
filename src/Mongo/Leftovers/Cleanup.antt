-- ===== src/Mongo/Leftovers/Cleanup.antt =====
-- What a removal of leftovers does and says.
use mathlib.Core.Path.{subst}
use mongo_ha.Base.{
  ◌==◌, if◌then◌else◌, Any, count, ℕ, zero, suc, ◌≡◌, refl, sym, ◌↔◌, ◌⊎◌, inl, inr, Bool, true,
  false, not, ◌&&◌, List, [], ◌∷◌, ◌++◌, arith, ==_iff,
}
use mongo_ha.Mongo.{
  timed_out, authentication, command, server_selection, io, pool_cleared, other_error, Reply, ok,
  err, command_error_code,
}
use mongo_ha.Mongo.Leftovers.{
  Command, create_role, grant_role, drop_local, drop_preimages, revoke_role, drop_role, Leftovers,
  tolerate, drop_second, drops, as_dropped, after_grant, after_create, on_leftovers,
  drop_stale_replset_config,
}

-- A drop was tried.
abbrev pub IsDrop : Command → Type 0
IsDrop drop_local = Unit {0}
IsDrop drop_preimages = Unit {0}
IsDrop create_role = ⊥
IsDrop grant_role = ⊥
IsDrop revoke_role = ⊥
IsDrop drop_role = ⊥

-- The commands end with the removal of the role.
abbrev pub EndsClean : List Command → Type 0
EndsClean cs = (before : List Command) × (cs ≡ before ++ revoke_role ∷ drop_role ∷ [])

after_grant-EndsClean :
    (count : ℕ) (has_preimages : Bool) (l : Leftovers) (r : Reply (Unit {0}))
    → Any IsDrop (after_grant count has_preimages l r).1
    → EndsClean (after_grant count has_preimages l r).1
after_grant-EndsClean count has_preimages l (err e) m = elim m [
  | inl x ↦ absurd x
  | inr y ↦ elim y [ inl x ↦ absurd x | inr z ↦ absurd z ]
]
after_grant-EndsClean count has_preimages l (ok u) m =
    (create_role ∷ grant_role ∷ (drops count has_preimages l).0, refl)

after_create-EndsClean :
    (count : ℕ) (has_preimages : Bool) (l : Leftovers) (r : Reply (Unit {0}))
    → Any IsDrop (after_create count has_preimages l r).1
    → EndsClean (after_create count has_preimages l r).1
after_create-EndsClean count has_preimages l (err e) m = elim m [
  | inl x ↦ absurd x
  | inr y ↦ absurd y
]
after_create-EndsClean count has_preimages l (ok u) m =
    after_grant-EndsClean count has_preimages l l.granted m

abbrev pick :
    Bool → Reply Bool × List Command → Reply Bool × List Command → Reply Bool × List Command
pick b x y = if b then x else y

-- Whenever a drop was tried, whatever its reply, the run ends by revoking the maintenance role and
-- dropping it.
pub drop_stale-EndsClean :
    (l : Leftovers)
    → Any IsDrop (drop_stale_replset_config l).1
    → EndsClean (drop_stale_replset_config l).1
unfolding drop_stale_replset_config
drop_stale-EndsClean l m = go l.count l.has_preimages m
  where
    go :
        (c : Reply ℕ) (p : Reply Bool)
        → Any IsDrop (on_leftovers l c p).1
        → EndsClean (on_leftovers l c p).1
    go (err e) p m = absurd m
    go (ok c) (err e) m = absurd m
    go (ok c) (ok p) m = branch (c == 0 && not p) m
      where
        branch :
            (b : Bool)
            → Any IsDrop (pick b (ok false, []) (after_create c p l (tolerate 51002 l.created))).1
            → EndsClean (pick b (ok false, []) (after_create c p l (tolerate 51002 l.created))).1
        branch true m = absurd m
        branch false m = after_create-EndsClean c p l (tolerate 51002 l.created) m

second_ok_iff :
    (p : Bool) (l : Leftovers) (r : Reply (Unit {0}))
    → ((drop_second p l r).1 ≡ ok tt)
      ↔ ((r ≡ ok tt) × ((p ≡ false) ⊎ (tolerate 26 l.preimages_dropped ≡ ok tt)))
second_ok_iff p l (err e) = (λ h. cc, λ (a, b). cc)
second_ok_iff false l (ok u) = (λ h. (refl, inl refl), λ h. refl)
second_ok_iff true l (ok u) = (λ h. (refl, inr h), λ (a, b). elim b [ inl e ↦ cc | inr e ↦ e ])

drops_ok_iff :
    (n : ℕ) (p : Bool) (l : Leftovers)
    → ((drops n p l).1 ≡ ok tt) ↔ (
        ((n ≡ 0) ⊎ (l.local_dropped ≡ ok tt))
        × ((p ≡ false) ⊎ (tolerate 26 l.preimages_dropped ≡ ok tt)))
unfolding drops
drops_ok_iff zero p l =
    let (to, from) = second_ok_iff p l (ok tt) in
    (λ h. (inl refl, (to h).1), λ (a, b). from (refl, b))
drops_ok_iff (suc n) p l =
    let (to, from) = second_ok_iff p l l.local_dropped in
    (
      λ h. (inr (to h).0, (to h).1),
      λ (a, b). from (elim a [ inl e ↦ absurd (omega (arith, e)) | inr e ↦ e ], b),
    )

as_dropped_iff : (r : Reply (Unit {0})) → (as_dropped r ≡ ok true) ↔ (r ≡ ok tt)
as_dropped_iff (ok u) = (λ h. refl, λ h. refl)
as_dropped_iff (err e) = (λ h. cc, λ h. cc)

granted_iff :
    (n : ℕ) (p : Bool) (l : Leftovers) (r : Reply (Unit {0}))
    → ((after_grant n p l r).0 ≡ ok true) ↔ ((r ≡ ok tt) × ((drops n p l).1 ≡ ok tt))
granted_iff n p l (err e) = (λ h. cc, λ (a, b). cc)
granted_iff n p l (ok u) =
    let (to, from) = as_dropped_iff (drops n p l).1 in (λ h. (refl, to h), λ (a, b). from b)

created_iff :
    (n : ℕ) (p : Bool) (l : Leftovers) (r : Reply (Unit {0}))
    → ((after_create n p l r).0 ≡ ok true)
      ↔ ((r ≡ ok tt) × (l.granted ≡ ok tt) × ((drops n p l).1 ≡ ok tt))
created_iff n p l (err e) = (λ h. cc, λ (a, b, c). cc)
created_iff n p l (ok u) =
    let (to, from) = granted_iff n p l l.granted in
    (λ h. (refl, (to h).0, (to h).1), λ (a, b, c). from (b, c))

-- A command succeeded, or failed with the error of a repeated attempt.
abbrev pub DoneOr : ℕ → Reply (Unit {0}) → Type 0
DoneOr code r = (r ≡ ok tt) ⊎ (r ≡ err (command code))

tolerate-ok_iff : (code : ℕ) (r : Reply (Unit {0})) → (tolerate code r ≡ ok tt) ↔ DoneOr code r
unfolding tolerate command_error_code
tolerate-ok_iff code (ok u) = (λ h. inl refl, λ h. refl)
tolerate-ok_iff code (err timed_out) = ground arith
tolerate-ok_iff code (err authentication) = ground arith
tolerate-ok_iff code (err (command c)) = ground (arith, ==_iff c code)
tolerate-ok_iff code (err server_selection) = ground arith
tolerate-ok_iff code (err io) = ground arith
tolerate-ok_iff code (err pool_cleared) = ground arith
tolerate-ok_iff code (err other_error) = ground arith

Sum_map : {A B C : Type 0} → (B → C) → A ⊎ B → A ⊎ C
Sum_map f (inl a) = inl a
Sum_map f (inr b) = inr (f b)

-- The same in terms of the replies that count as success.
abbrev Accepted : Leftovers → ℕ → Bool → Type 0
Accepted l n p =
    ((n == 0 && not p) ≡ false)
    × (tolerate 51002 l.created ≡ ok tt)
    × (l.granted ≡ ok tt)
    × ((n ≡ 0) ⊎ (l.local_dropped ≡ ok tt))
    × ((p ≡ false) ⊎ (tolerate 26 l.preimages_dropped ≡ ok tt))

-- There was a leftover, the role could be created or was there already, it was granted, and each
-- leftover that was found was dropped, or the pre-images were gone by then.
abbrev pub AllDropped : Leftovers → ℕ → Bool → Type 0
AllDropped l n p =
    ((n == 0 && not p) ≡ false)
    × DoneOr 51002 l.created
    × (l.granted ≡ ok tt)
    × ((n ≡ 0) ⊎ (l.local_dropped ≡ ok tt))
    × ((p ≡ false) ⊎ DoneOr 26 l.preimages_dropped)

read_iff :
    (l : Leftovers) (n : ℕ) (p b : Bool)
    → (n == 0 && not p) ≡ b
    → ((pick b (ok false, []) (after_create n p l (tolerate 51002 l.created))).0 ≡ ok true) ↔ (
        (b ≡ false)
        × (tolerate 51002 l.created ≡ ok tt)
        × (l.granted ≡ ok tt)
        × ((n ≡ 0) ⊎ (l.local_dropped ≡ ok tt))
        × ((p ≡ false) ⊎ (tolerate 26 l.preimages_dropped ≡ ok tt)))
read_iff l n p true e = (λ h. cc, λ (a, x, y, z, w). cc)
read_iff l n p false e =
    let (to, from) = created_iff n p l (tolerate 51002 l.created) in
    let (dto, dfrom) = drops_ok_iff n p l in
    (
      λ h. let (a, b, d) = to h in let (x, y) = dto d in (refl, a, b, x, y),
      λ (x, a, b, y, z). from (a, b, dfrom (y, z)),
    )

Accepted-AllDropped_iff : (l : Leftovers) (n : ℕ) (p : Bool) → Accepted l n p ↔ AllDropped l n p
Accepted-AllDropped_iff l n p =
    let (created, back) = tolerate-ok_iff 51002 l.created in
    let (dropped, undropped) = tolerate-ok_iff 26 l.preimages_dropped in
    (
      λ (a, b, c, d, e). (a, created b, c, d, Sum_map dropped e),
      λ (a, b, c, d, e). (a, back b, c, d, Sum_map undropped e),
    )

drop_stale-Accepted_iff :
    (l : Leftovers) (n : ℕ) (p : Bool)
    → l.count ≡ ok n
    → l.has_preimages ≡ ok p
    → ((drop_stale_replset_config l).0 ≡ ok true) ↔ Accepted l n p
unfolding drop_stale_replset_config
drop_stale-Accepted_iff l n p c q =
    subst (λ r. ((on_leftovers l r l.has_preimages).0 ≡ ok true) ↔ Accepted l n p) (sym c)
      (subst (λ r. ((on_leftovers l (ok n) r).0 ≡ ok true) ↔ Accepted l n p) (sym q)
        (read_iff l n p (n == 0 && not p) refl))

-- With `n` documents in `local.system.replset` and `p` for the pre-images: something is reported as
-- dropped exactly when there was a leftover, the role could be created or was there already, it was
-- granted, and each leftover that was found was dropped, or the pre-images were gone by then.
pub drop_stale-AllDropped_iff :
    (l : Leftovers) (n : ℕ) (p : Bool)
    → l.count ≡ ok n
    → l.has_preimages ≡ ok p
    → ((drop_stale_replset_config l).0 ≡ ok true) ↔ AllDropped l n p
drop_stale-AllDropped_iff l n p c q =
    let (to, from) = drop_stale-Accepted_iff l n p c q in
    let (weaken, back) = Accepted-AllDropped_iff l n p in (λ h. weaken (to h), λ h. from (back h))
