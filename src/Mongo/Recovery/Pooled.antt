-- ===== src/Mongo/Recovery/Pooled.antt =====
-- What a command on the pooled client guarantees.
use mongo_ha.Base.{Instant, ℕ, ◌≡◌, refl, ◌↔◌, ◌⊎◌, inl, inr, Bool, true, arith}
use mongo_ha.Text.{Text}
use mongo_ha.Mongo.{MongoError, Reply, ok, err}
use mongo_ha.Mongo.Recovery.{
  Failure, auth, transport, verdict, classify, on_failure, Pool, Mongo, swap_password, rebuild,
  note_failure, retried, rebuilt, attempted, recovering,
}

-- The pooled client always authenticates with the active password.
abbrev pub IsCurrent : Mongo → Type 0
IsCurrent m = m.pool.client ≡ m.password

pub swap_password-IsCurrent : (password : Text) (m : Mongo) → IsCurrent (swap_password password m)
unfolding swap_password
swap_password-IsCurrent password m = refl

rebuild-IsCurrent : (observed : ℕ) (m : Mongo) → IsCurrent m → IsCurrent (rebuild observed m)
unfolding rebuild
rebuild-IsCurrent observed m h = ground arith

-- Two callers that saw the same generation fail replace the client once: the second finds the pool
-- past that generation and leaves it.
pub rebuild_once :
    (observed : ℕ) (m : Mongo) → rebuild observed (rebuild observed m) ≡ rebuild observed m
unfolding rebuild
rebuild_once observed m = ground arith

retried-IsCurrent :
    {A : Type 0} (a : Bool) (later : Instant) (m : Mongo) (r : Reply A)
    → IsCurrent m
    → IsCurrent (retried a later m r).0
unfolding retried
retried-IsCurrent a later m (ok v) h = h
retried-IsCurrent a later m (err e) h = h

rebuilt-IsCurrent :
    {A : Type 0} (a : Bool) (op : Pool → Reply A) (later : Instant) (m : Mongo) (e : MongoError)
    (f : Failure)
    → IsCurrent m
    → IsCurrent (rebuilt a op later m e f).0
unfolding rebuilt
rebuilt-IsCurrent a op later m e auth h = retried-IsCurrent a later m (op m.pool) h
rebuilt-IsCurrent a op later m e transport h = h
rebuilt-IsCurrent a op later m e verdict h = h

module _ {A : Type 0} (authenticated : Bool) (op : Pool → Reply A) (others : Mongo → Mongo)
    (now later : Instant) (m : Mongo) where
  attempted-IsCurrent :
      ((n : Mongo) → IsCurrent n → IsCurrent (others n))
      → IsCurrent m
      → (r : Reply A) → IsCurrent (attempted authenticated op others now later m r).0
  unfolding attempted
  attempted-IsCurrent keeps h (ok v) = h
  attempted-IsCurrent keeps h (err e) =
      let noted = (note_failure (classify e) authenticated now m).0 in
      let fresh = rebuild-IsCurrent m.pool.generation (others noted) (keeps noted h) in
      ground (
        arith,
        h,
        rebuilt-IsCurrent authenticated op later (rebuild m.pool.generation (others noted)) e
            (classify e) fresh,
      )

  -- A command leaves the pooled client authenticating with the active password, when it did so
  -- before and concurrent callers keep it so.
  pub recovering-IsCurrent :
      ((n : Mongo) → IsCurrent n → IsCurrent (others n))
      → IsCurrent m
      → IsCurrent (recovering authenticated op others now later m).0
  unfolding recovering
  recovering-IsCurrent keeps h = attempted-IsCurrent keeps h (op m.pool)

  abbrev pub noted : Mongo
  noted = (note_failure auth authenticated now m).0

  -- The command was refused authentication, the policy allowed a rebuild, and the rebuilt client
  -- got the answer.
  abbrev pub Recovered : A → Type 0
  Recovered v =
      (e : MongoError) × (op m.pool ≡ err e)
      × (classify e ≡ auth)
      × ((on_failure auth authenticated now m.recovery).1 ≡ true)
      × (op (rebuild m.pool.generation (others noted)).pool ≡ ok v)

  retried-ok :
      (n : Mongo) (r : Reply A) (v : A) → (retried authenticated later n r).1 ≡ ok v → r ≡ ok v
  unfolding retried
  retried-ok n (ok w) v h = h
  retried-ok n (err e) v h = cc

  ok-retried :
      (n : Mongo) (r : Reply A) (v : A) → r ≡ ok v → (retried authenticated later n r).1 ≡ ok v
  unfolding retried
  ok-retried n (ok w) v h = h
  ok-retried n (err e) v h = cc

  Recovered-of :
      (e : MongoError) (f : Failure) (v : A)
      → op m.pool ≡ err e
      → classify e ≡ f
      → (attempted authenticated op others now later m (err e)).1 ≡ ok v
      → Recovered v
  unfolding attempted rebuilt
  Recovered-of e auth v o c h = (
    e,
    o,
    c,
    ground (arith, c, h),
    retried-ok (rebuild m.pool.generation (others noted))
        (op (rebuild m.pool.generation (others noted)).pool) v (ground (arith, c, h)),
  )
  Recovered-of e transport v o c h = absurd (ground (arith, c, h))
  Recovered-of e verdict v o c h = absurd (ground (arith, c, h))

  attempted_of :
      (v : A) → Recovered v → (attempted authenticated op others now later m (op m.pool)).1 ≡ ok v
  unfolding attempted rebuilt
  attempted_of v (e, o, c, r, k) = ground (
    arith,
    o,
    c,
    r,
    ok-retried (rebuild m.pool.generation (others noted))
        (op (rebuild m.pool.generation (others noted)).pool) v k,
  )

  ok_cases :
      (v : A) (r : Reply A)
      → op m.pool ≡ r
      → (attempted authenticated op others now later m r).1 ≡ ok v
      → (op m.pool ≡ ok v) ⊎ Recovered v
  ok_cases v (ok w) o h = inl (unfold attempted in ground (arith, o, h))
  ok_cases v (err e) o h = inr (Recovered-of e (classify e) v o refl h)

  -- A command answers exactly when its first attempt does, or when that attempt failed
  -- authentication, the policy allows a rebuild, and the attempt on the rebuilt client answers.
  pub recovering-ok_iff :
      (v : A)
      → ((recovering authenticated op others now later m).1 ≡ ok v)
        ↔ ((op m.pool ≡ ok v) ⊎ Recovered v)
  recovering-ok_iff v = (λ h. unfold recovering in ok_cases v (op m.pool) refl h, back)
    where
      back :
          (op m.pool ≡ ok v) ⊎ Recovered v
          → (recovering authenticated op others now later m).1 ≡ ok v
      back (inl o) = unfold recovering attempted in ground (arith, o)
      back (inr r) = unfold recovering in attempted_of v r
