-- ===== src/Credentials/Request/Carried.antt =====
-- mongo-wrapper/src/credentials.rs: whose requests run a phase, and what they leave behind.
use mongo_ha.Base.{
  ◌==◌, ltb→ge, Bool-cases, Option-cases, and_then, All, length, ◌≤◌, ◌≡◌, refl, ap, ◌∙◌, ◌≢◌, ◌↔◌,
  ◌⊎◌, inl, inr, Bool, true, false, Option, none, some, [], ◌∷◌, ◌++◌, arith,
}
use mongo_ha.Text.{Text, codes}
use mongo_ha.Text.Case.{eq_ignore_ascii_case}
use mongo_ha.Text.Split.{split_once, split_once-eq-some, split_once_join, join}
use mongo_ha.Text.Utf8.{Bytes, as_bytes}
use mongo_ha.Credentials.{
  Rotation, Node, Answers, is_primary, apply_operation, Operation, preflight, prepare, database,
  member, verify, key_status, key_prepare, key_commit,
}
use mongo_ha.Credentials.Phases.{IsProven, phase-IsProven}
use mongo_ha.Credentials.Request.{
  rotated, active_password_of, expected_bytes, is_invalid, in_time, supplied, is_authorized, rotate,
  leader_of,
}

module _ {HeaderValue : Type 0} (to_str : HeaderValue → Option Text)
    (base64_decode : Text → Option Bytes) where
  -- The header is `basic`, in any case, a space, and the base64 form of `railway:` and the password.
  pub record Carries (header : Option HeaderValue) (password : Text) : Type 0 where
    pub scheme : Text
    pub token : Text
    pub text : and_then header to_str ≡ some (scheme ++ b' ' ∷ token)
    pub spaceless : All (λ c. (c == b' ') ≡ false) scheme
    pub basic : eq_ignore_ascii_case scheme (codes "basic") ≡ true
    pub decoded : base64_decode token ≡ some (as_bytes (codes "railway:" ++ password))

  supplied_from :
      (ct_eq : Bytes → Bytes → Bool) (header : Option HeaderValue) (text scheme token : Text)
      → and_then header to_str ≡ some text
      → split_once b' ' text ≡ some (scheme, token)
      → eq_ignore_ascii_case scheme (codes "basic") ≡ true
      → supplied to_str base64_decode ct_eq header ≡ base64_decode token
  unfolding supplied
  supplied_from ct_eq header text scheme token h k b = rw (h, k, b) refl

  supplied_of :
      (ct_eq : Bytes → Bytes → Bool) (header : Option HeaderValue) (password : Text)
      → ((x y : Bytes) → (ct_eq x y ≡ true) ↔ (x ≡ y))
      → Carries header password
      → is_authorized to_str base64_decode ct_eq header password ≡ true
  supplied_of ct_eq header password same c =
      rw
        (
          supplied_from ct_eq header (c.scheme ++ b' ' ∷ c.token) c.scheme c.token c.text
              (split_once_join b' ' c.scheme c.token c.spaceless) c.basic,
          c.decoded,
        )
        ((same (expected_bytes password) (expected_bytes password)).1 refl)

  carried_by :
      (ct_eq : Bytes → Bytes → Bool) (header : Option HeaderValue) (password : Text)
      → ((x y : Bytes) → (ct_eq x y ≡ true) ↔ (x ≡ y))
      → is_authorized to_str base64_decode ct_eq header password ≡ true
      → Carries header password
  unfolding supplied
  carried_by ct_eq header password same h = elim (Option-cases (and_then header to_str)) [
    | inl n ↦ absurd (ground (arith, n, h))
    | inr (text, n) ↦ elim (Option-cases (split_once b' ' text)) [
      | inl m ↦ absurd (ground (arith, n, m, h))
      | inr ((scheme, token), m) ↦ elim (Bool-cases (eq_ignore_ascii_case scheme (codes "basic"))) [
        | inr f ↦ absurd (ground (arith, n, m, f, h))
        | inl b ↦ elim (Option-cases (base64_decode token)) [
          | inl d ↦ absurd (ground (arith, n, m, b, d, h))
          | inr (bytes, d) ↦
              let (join, free) = split_once-eq-some b' ' text scheme token m in
              record {
                scheme = scheme;
                token = token;
                text = n ∙ ap some join;
                spaceless = free;
                basic = b;
                decoded =
                    d
                    ∙ ap some (
                        (same bytes (expected_bytes password)).0
                          (rw (supplied_from ct_eq header text scheme token n m b, d) at h));
              }
        ]
      ]
    ]
  ]

is_invalid_iff :
    (password : Text)
    → (is_invalid password ≡ false) ↔ ((password ≢ []) × (length (as_bytes password) ≤ 1024))
unfolding is_invalid
is_invalid_iff [] = (λ h. absurd (ground (arith, h)), λ (h, k). absurd (h refl))
is_invalid_iff (c ∷ s) =
    (λ h. (λ e. cc, ltb→ge 1024 (length (as_bytes (c ∷ s))) h), λ (h, k). ground arith)

in_time-node : (leader : Bool) (x : Node × Bool) → (in_time leader none x).0 ≡ x.0
in_time-node leader (m, true) = refl
in_time-node leader (m, false) = refl

reported_iff :
    (op : Operation) (a : Answers) (leader : Bool)
    → (leader ≡ leader_of op a)
      ↔ (((op ≡ prepare) × (leader ≡ false)) ⊎ ((op ≢ prepare) × (leader ≡ is_primary a.hello)))
reported_iff prepare a leader = ground arith
reported_iff preflight a leader = ground arith
reported_iff database a leader = ground arith
reported_iff member a leader = ground arith
reported_iff verify a leader = ground arith
reported_iff key_status a leader = ground arith
reported_iff key_prepare a leader = ground arith
reported_iff key_commit a leader = ground arith

in_time-rotated_iff :
    (first leader : Bool) (cut_off : Option Node) (applied : Node × Bool)
    → ((in_time first cut_off applied).1 ≡ rotated leader)
      ↔ ((cut_off ≡ none) × ((applied.1 ≡ true) × (leader ≡ first)))
in_time-rotated_iff first leader (some m) applied = ground arith
in_time-rotated_iff first leader none (m, true) = ground arith
in_time-rotated_iff first leader none (m, false) = ground arith

module _ {HeaderValue : Type 0} (to_str : HeaderValue → Option Text)
    (base64_decode : Text → Option Bytes) (ct_eq : Bytes → Bytes → Bool)
    (same : (x y : Bytes) → (ct_eq x y ≡ true) ↔ (x ≡ y)) (derive : Text → Text)
    (pair : Text → Text → Text) where
  -- What a request needs for an answer 200: the active credential, a password of 1 to 1024 bytes,
  -- and a phase that succeeds in time.
  pub record IsAccepted (a : Answers) (root_password : Text) (header : Option HeaderValue)
      (r : Rotation) (cut_off : Option Node) (n : Node) (leader : Bool) : Type 0 where
    pub carried : Carries to_str base64_decode header (active_password_of n.disk root_password)
    pub filled : r.new_password ≢ []
    pub bounded : length (as_bytes r.new_password) ≤ 1024
    pub in_limit : cut_off ≡ none
    pub applied : (apply_operation derive pair r.operation a r n).1 ≡ true
    pub reported :
        ((r.operation ≡ prepare) × (leader ≡ false))
        ⊎ ((r.operation ≢ prepare) × (leader ≡ is_primary a.hello))

  -- A rotation request is answered with 200 exactly when its header carries the active password as
  -- `railway`, its new password has 1 to 1024 bytes, and the phase succeeds before the limit. The
  -- answer says whether this node is the primary, except that `prepare` always answers `false`. `ct_eq` compares two slices.
  pub rotate-rotated_iff :
      (a : Answers) (root_password : Text) (header : Option HeaderValue) (r : Rotation)
      (cut_off : Option Node) (n : Node) (leader : Bool)
      → ((rotate to_str base64_decode ct_eq derive pair a root_password header r cut_off n).1
          ≡ rotated leader)
        ↔ IsAccepted a root_password header r cut_off n leader
  unfolding rotate
  rotate-rotated_iff a root_password header r cut_off n leader = (to, from)
    where
      active : Text
      active = active_password_of n.disk root_password

      applied : Node × Bool
      applied = apply_operation derive pair r.operation a r n

      to :
          (rotate to_str base64_decode ct_eq derive pair a root_password header r cut_off n).1
            ≡ rotated leader
          → IsAccepted a root_password header r cut_off n leader
      to h = elim (Bool-cases (is_authorized to_str base64_decode ct_eq header active)) [
        | inr f ↦ absurd (ground (arith, f, h))
        | inl t ↦ elim (Bool-cases (is_invalid r.new_password)) [
          | inl i ↦ absurd (ground (arith, t, i, h))
          | inr v ↦
              let (filled, bounded) = (is_invalid_iff r.new_password).0 v in
              let (limit, (done, reported)) =
                (in_time-rotated_iff (leader_of r.operation a) leader cut_off applied).0
                  (rw (t, v) at h) in
              record {
                carried = carried_by to_str base64_decode ct_eq header active same t;
                filled = filled;
                bounded = bounded;
                in_limit = limit;
                applied = done;
                reported = (reported_iff r.operation a leader).0 reported;
              }
        ]
      ]

      from :
          IsAccepted a root_password header r cut_off n leader
          → (rotate to_str base64_decode ct_eq derive pair a root_password header r cut_off n).1
            ≡ rotated leader
      from c =
          rw
            (
              supplied_of to_str base64_decode ct_eq header active same c.carried,
              (is_invalid_iff r.new_password).1 (c.filled, c.bounded),
            )
            ((in_time-rotated_iff (leader_of r.operation a) leader cut_off applied).1
              (c.in_limit, (c.applied, (reported_iff r.operation a leader).1 c.reported)))

  -- Without a limit, a request either leaves the node as it is, or carries the active password and
  -- the phase has proved the passwords that it puts in place.
  pub rotate-IsProven :
      (a : Answers) (root_password : Text) (header : Option HeaderValue) (r : Rotation) (n : Node)
      → ((rotate to_str base64_decode ct_eq derive pair a root_password header r none n).0 ≡ n)
        ⊎ (Carries to_str base64_decode header (active_password_of n.disk root_password)
            × IsProven a r n
                (rotate to_str base64_decode ct_eq derive pair a root_password header r none n).0)
  unfolding rotate
  rotate-IsProven a root_password header r n =
      elim (Bool-cases (is_authorized to_str base64_decode ct_eq header active)) [
        | inr f ↦ inl (rw f refl)
        | inl t ↦ elim (Bool-cases (is_invalid r.new_password)) [
          | inl i ↦ inl (rw (t, i) refl)
          | inr v ↦ inr (
            carried_by to_str base64_decode ct_eq header active same t,
            rw (t, v, in_time-node (leader_of r.operation a) applied)
                (phase-IsProven derive pair r.operation a r n),
          )
        ]
      ]
    where
      active : Text
      active = active_password_of n.disk root_password

      applied : Node × Bool
      applied = apply_operation derive pair r.operation a r n
