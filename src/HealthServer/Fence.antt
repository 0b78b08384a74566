-- ===== src/HealthServer/Fence.antt =====
-- The write-routing fence of `/role`.
use mongo_ha.Base.{
  ◌||◌, ◌<◌, ◌⊎◌, ◌*◌, [], ◌∷◌, Bool-cases, Instant, ◌≡◌, refl, ◌≢◌, ◌↔◌, inl, inr, true, arith,
  List, ◌∷◌, length, count,
}
use mongo_ha.Text.{Text}
use mongo_ha.Mongo.{
  Reply, ok, err, Hello, Active, RsStatus, not_initialized, not_a_member, active, has_majority,
}
use mongo_ha.HealthServer.{
  primary, fenced, replica, unavailable, status_ok, FailureLog, role_reply, own_member_state,
  as_replica, fence_of, role_verdict, reply_of, role, RoleVerdict, RsMember, service_unavailable,
  fenced, replica, unavailable,
}

-- More than half of the members are healthy or this node itself.
abbrev pub HasMajority : List RsMember → Type 0
HasMajority members = length members < count (λ m. m.healthy || m.is_self) members * 2

has_majority_iff : (members : List RsMember) → (has_majority members ≡ true) ↔ HasMajority members
unfolding has_majority
has_majority_iff [] = ground arith
has_majority_iff (m ∷ ms) = ground arith

-- This node is the writable primary and its own view has a reachable majority.
abbrev pub IsRoutable : Reply Hello → Reply RsStatus → Type 0
IsRoutable hello status =
    (h : Hello) × (a : Active) × (hello ≡ ok h)
    × (h.is_writable_primary ≡ true)
    × (status ≡ ok (active a))
    × HasMajority a.members

abbrev pub Answers200 : Instant → Reply Hello → Reply RsStatus → FailureLog → Type 0
Answers200 now hello status l = (role now hello status l).1.0 ≡ status_ok

fence-IsRoutable :
    (h : Hello) (status : Reply RsStatus)
    → h.is_writable_primary ≡ true
    → (reply_of (fence_of status)).0 ≡ status_ok
    → IsRoutable (ok h) status
unfolding role_reply
fence-IsRoutable h (ok (active a)) w e =
    (h, a, refl, w, refl, (has_majority_iff a.members).0 (ground (arith, e)))
fence-IsRoutable h (ok not_initialized) w e = cc
fence-IsRoutable h (ok not_a_member) w e = cc
fence-IsRoutable h (err x) w e = cc

replica-not-ok : (r : Reply Text) → (reply_of (as_replica r)).0 ≢ status_ok
unfolding role_reply
replica-not-ok (ok s) e = cc
replica-not-ok (err x) e = cc

role-IsRoutable :
    (now : Instant) (hello : Reply Hello) (status : Reply RsStatus) (l : FailureLog)
    → Answers200 now hello status l
    → IsRoutable hello status
unfolding role role_verdict
role-IsRoutable now (err x) status l e = absurd (unfold role_reply in cc)
role-IsRoutable now (ok h) status l e = elim (Bool-cases h.is_writable_primary) [
  | inl w ↦ fence-IsRoutable h status w (ground (arith, e, w))
  | inr w ↦ absurd (replica-not-ok (own_member_state status) (ground (arith, e, w)))
]

IsRoutable-role :
    (now : Instant) (hello : Reply Hello) (status : Reply RsStatus) (l : FailureLog)
    → IsRoutable hello status
    → Answers200 now hello status l
unfolding role role_verdict role_reply
IsRoutable-role now hello status l (h, a, e, w, f, m) =
    rw (e, f) (ground (arith, w, (has_majority_iff a.members).1 m))

-- No verdict answers anything but 200 or 503.
reply-codes :
    (v : Reply RoleVerdict) → ((reply_of v).0 ≡ status_ok) ⊎ ((reply_of v).0 ≡ service_unavailable)
unfolding role_reply
reply-codes (ok primary) = inl refl
reply-codes (ok (fenced s)) = inr refl
reply-codes (ok (replica s)) = inr refl
reply-codes (ok (unavailable why)) = inr refl
reply-codes (err e) = inr refl

-- `/role` of a set member answers 200 exactly when mongod says that it is the writable primary and
-- the status of the set shows that more than half of the members are healthy or this node itself. In
-- every other state, and after every error, it answers 503.
pub role-ok_iff :
    (now : Instant) (hello : Reply Hello) (status : Reply RsStatus) (l : FailureLog)
    → (IsRoutable hello status × ((role now hello status l).1.0 ≡ status_ok))
      ⊎ ((IsRoutable hello status → ⊥) × ((role now hello status l).1.0 ≡ service_unavailable))
unfolding role
role-ok_iff now hello status l = elim (reply-codes (role_verdict hello status)) [
  | inl e ↦ inl (role-IsRoutable now hello status l e, e)
  | inr e ↦ inr (λ r. absurd (ground (arith, IsRoutable-role now hello status l r, e)), e)
]
