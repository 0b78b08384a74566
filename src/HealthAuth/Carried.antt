-- ===== src/HealthAuth/Carried.antt =====
-- mongo-wrapper/src/health_auth.rs: what a header carries, and which password is the live one.
use mongo_ha.Base.{
  Bool-cases, Option-cases, Option_filter, and_then, All, ℕ, ◌≡◌, refl, sym, ap, ◌∙◌, ◌≢◌, ◌↔◌, ◌⊎◌,
  inl, inr, true, false, not, Option, none, some, [], ◌∷◌, ◌++◌, map, arith,
}
use mongo_ha.Text.{Text, codes, is_empty, text_eq, text_eq_iff}
use mongo_ha.Text.Case.{to_ascii_lowercase, eq_ignore_ascii_case, eq_ignore_ascii_case_iff}
use mongo_ha.Text.Trim.{is_whitespace, trim}
use mongo_ha.Text.Utf8.{Bytes}
use mongo_ha.HealthAuth.{
  Credential, follows_pin, live_credential, split_once_whitespace, basic_payload, decoded_bytes,
}

-- The pinned password, where there is one and the configured password is the trimmed root password
-- of this boot; else the configured one.
abbrev pub IsLive : Credential → Option Text → Option Text → Text → Type 0
IsLive expected env_root pinned password =
    ((root : Text) × (env_root ≡ some root)
      × (expected.password ≡ trim root)
      × (pinned ≡ some password))
    ⊎ ((password ≡ expected.password)
        × ((root pin : Text)
            → env_root ≡ some root
            → pinned ≡ some pin
            → expected.password ≢ trim root))

pub live_credential-IsLive :
    (expected : Credential) (env_root pinned : Option Text)
    → IsLive expected env_root pinned (live_credential expected env_root pinned).password
unfolding live_credential follows_pin
live_credential-IsLive expected none pinned = inr (refl, λ root pin e f. cc)
live_credential-IsLive expected (some root) none = inr (refl, λ r pin e f. cc)
live_credential-IsLive expected (some root) (some pin) =
    elim (Bool-cases (text_eq expected.password (trim root))) [
      | inr e ↦ inr (
        rw e refl,
        λ r p q f w. absurd (ground (arith, e, q, w, text_eq_iff expected.password (trim root))),
      )
      | inl e ↦ elim (Bool-cases (text_eq pin expected.password)) [
        | inl q ↦ inl (
          root,
          refl,
          (text_eq_iff expected.password (trim root)).0 e,
          rw (e, q) (ap some ((text_eq_iff pin expected.password).0 q)),
        )
        | inr q ↦ inl (root, refl, (text_eq_iff expected.password (trim root)).0 e, rw (e, q) refl)
      ]
    ]

-- There is one live password.
pub IsLive-unique :
    (expected : Credential) (env_root pinned : Option Text) (p q : Text)
    → IsLive expected env_root pinned p
    → IsLive expected env_root pinned q
    → p ≡ q
IsLive-unique expected env_root pinned p q (inl (r, a, b, c)) (inl (t, d, e, f)) =
    ground (arith, c, f)
IsLive-unique expected env_root pinned p q (inl (r, a, b, c)) (inr (e, n)) = absurd (n r p a c b)
IsLive-unique expected env_root pinned p q (inr (e, n)) (inl (r, a, b, c)) = absurd (n r q a c b)
IsLive-unique expected env_root pinned p q (inr (e, n)) (inr (d, m)) = e ∙ sym d

-- The value, without white space around it, is `basic` in any case, white space, and the payload with
-- white space around it, which is not all of the rest.
pub record HasPayload (value payload : Text) : Type 0 where
  pub scheme : Text
  pub space : ℕ
  pub rest : Text
  pub parts : trim value ≡ scheme ++ space ∷ rest
  pub solid : All (λ c. is_whitespace c ≡ false) scheme
  pub is_space : is_whitespace space ≡ true
  pub basic : map to_ascii_lowercase scheme ≡ codes "basic"
  pub payload_is : payload ≡ trim rest
  pub filled : payload ≢ []

Parted : Text → Text → Text → Type 0
Parted s a b =
    (w : ℕ) × (s ≡ a ++ w ∷ b) × (is_whitespace w ≡ true) × All (λ c. is_whitespace c ≡ false) a

split_once_whitespace-eq-some :
    (s a b : Text) → split_once_whitespace s ≡ some (a, b) → Parted s a b
unfolding split_once_whitespace Parted
split_once_whitespace-eq-some [] a b h = cc
split_once_whitespace-eq-some (c ∷ s) a b h = elim (Bool-cases (is_whitespace c)) [
  | inl e ↦ (c, ground (arith, e, h), e, ground (arith, e, h))
  | inr e ↦ elim (Option-cases (split_once_whitespace s)) [
    | inl n ↦ absurd (ground (arith, e, n, h))
    | inr ((x, y), n) ↦
        let (w, p, white, q) = split_once_whitespace-eq-some s x y n in
        (w, ground (arith, e, n, h, p), white, ground (arith, e, n, h, q))
  ]
]

split_once_whitespace_join :
    (a : Text) (w : ℕ) (b : Text)
    → All (λ c. is_whitespace c ≡ false) a
    → is_whitespace w ≡ true
    → split_once_whitespace (a ++ w ∷ b) ≡ some (a, b)
unfolding split_once_whitespace
split_once_whitespace_join [] w b h white = rw white refl
split_once_whitespace_join (c ∷ a) w b (e, h) white =
    rw (e, split_once_whitespace_join a w b h white) refl

filled_payload :
    (p q : Text) → Option_filter (λ x. not (is_empty x)) (some p) ≡ some q → (q ≡ p) × (q ≢ [])
filled_payload [] q h = cc
filled_payload (c ∷ p) q h =
    let e : (c ∷ p) ≡ q = ground (arith, h) in (sym e, λ n. ground (arith, e, n))

payload-filled : (p : Text) → p ≢ [] → Option_filter (λ x. not (is_empty x)) (some p) ≡ some p
payload-filled [] n = absurd (n refl)
payload-filled (c ∷ p) n = refl

basic_payload-HasPayload :
    (value payload : Text) → basic_payload value ≡ some payload → HasPayload value payload
unfolding basic_payload Parted to_ascii_lowercase
basic_payload-HasPayload value payload h =
    elim (Option-cases (split_once_whitespace (trim value))) [
      | inl n ↦ absurd (ground (arith, n, h))
      | inr ((scheme, rest), n) ↦ elim (Bool-cases (eq_ignore_ascii_case scheme (codes "basic"))) [
        | inr e ↦ absurd (ground (arith, n, e, h))
        | inl e ↦
            let (w, p, white, q) = split_once_whitespace-eq-some (trim value) scheme rest n in
            let (same, filled) = filled_payload (trim rest) payload (rw (n, e) at h) in
            record {
              scheme = scheme;
              space = w;
              rest = rest;
              parts = p;
              solid = q;
              is_space = white;
              basic = (eq_ignore_ascii_case_iff scheme (codes "basic")).0 e;
              payload_is = same;
              filled = filled;
            }
      ]
    ]

HasPayload-basic_payload :
    (value payload : Text) → HasPayload value payload → basic_payload value ≡ some payload
unfolding basic_payload to_ascii_lowercase
HasPayload-basic_payload value payload w =
    rw
      (
        w.parts,
        split_once_whitespace_join w.scheme w.space w.rest w.solid w.is_space,
        (eq_ignore_ascii_case_iff w.scheme (codes "basic")).1 w.basic,
      )
      (rw (← w.payload_is) (payload-filled payload w.filled))

module _ {HeaderValue : Type 0} (to_str : HeaderValue → Option Text)
    (base64_decode : Text → Option Bytes) where
  -- The header is there, is text, and its payload is the base64 form of the bytes.
  abbrev pub CarriesBytes : Option HeaderValue → Bytes → Type 0
  CarriesBytes header bytes =
      (value : Text) × (payload : Text) × (and_then header to_str ≡ some value)
      × HasPayload value payload
      × (base64_decode payload ≡ some bytes)

  pub decoded_bytes_iff :
      (header : Option HeaderValue) (bytes : Bytes)
      → (decoded_bytes to_str base64_decode header ≡ some bytes) ↔ CarriesBytes header bytes
  unfolding decoded_bytes
  decoded_bytes_iff none bytes = (λ h. cc, λ (v, p, e, w, d). cc)
  decoded_bytes_iff (some x) bytes = (to, from)
    where
      to : decoded_bytes to_str base64_decode (some x) ≡ some bytes → CarriesBytes (some x) bytes
      to h = elim (Option-cases (to_str x)) [
        | inl n ↦ absurd (ground (arith, n, h))
        | inr (value, n) ↦ elim (Option-cases (basic_payload value)) [
          | inl m ↦ absurd (ground (arith, n, m, h))
          | inr (payload, m) ↦
              (value, payload, n, basic_payload-HasPayload value payload m, rw (n, m) at h)
        ]
      ]

      from : CarriesBytes (some x) bytes → decoded_bytes to_str base64_decode (some x) ≡ some bytes
      from (value, payload, e, w, d) = rw (e, HasPayload-basic_payload value payload w) d
