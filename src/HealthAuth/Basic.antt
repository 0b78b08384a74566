-- ===== src/HealthAuth/Basic.antt =====
-- The comparison without early exit, and whom the layer lets through.
use mathlib.Core.Path.{subst}
use mongo_ha.Base.{
  ◌==◌, ==_iff, Bool-cases, Option-cases, unwrap_or, Option_map, if_elim, All, length, All-append,
  append_assoc, bit_xor-zero, bit_xor_refl, bit_or-zero, ℕ, zero, suc, ◌+◌, bit_xor, ◌≤◌, ◌<◌, max,
  ◌≡◌, refl, sym, ap, ◌∙◌, ◌↔◌, inl, inr, true, false, Option, none, some, [], ◌∷◌, ◌++◌, arith,
}
use mongo_ha.Text.{Text}
use mongo_ha.Text.Split.{split_once-eq-some, split_once_join}
use mongo_ha.Text.Utf8.{
  Bytes, is_scalar, char_bytes, as_bytes, from_utf8, from_utf8-as_bytes, as_bytes_inj,
}
use mongo_ha.Text.Utf8.Sound.{from_utf8_sound}
use mongo_ha.HealthAuth.Carried.{
  IsLive, live_credential-IsLive, IsLive-unique, CarriesBytes, decoded_bytes_iff,
}
use mongo_ha.HealthAuth.{
  Credential, follows_pin, live_credential, byte_at, accumulate, constant_time_eq, halves_eq,
  decoded_halves, next_run, decoded_bytes, authorized, require,
}

accumulate-zero :
    (a b : Bytes) (n i diff : ℕ)
    → accumulate a b n i diff ≡ 0
    → (diff ≡ 0) × ((k : ℕ) → i ≤ k → k < i + n → byte_at a k ≡ byte_at b k)
unfolding accumulate
accumulate-zero a b zero i diff h = (h, λ k p q. absurd (omega (arith, p, q)))
accumulate-zero a b (suc n) i diff h =
    let (d, rest) = accumulate-zero a b n (suc i) _ h in
    let (e, x) = bit_or-zero diff (bit_xor (byte_at a i) (byte_at b i)) d in
    (
      e,
      λ k p q. elim (Bool-cases (k == i)) [
        | inl s ↦ rw ((==_iff k i).0 s) (bit_xor-zero (byte_at a i) (byte_at b i) x)
        | inr s ↦ rest k (ground (arith, p, s)) (omega (arith, q))
      ],
    )

accumulate_refl : (a : Bytes) (n i : ℕ) → accumulate a a n i 0 ≡ 0
unfolding accumulate
accumulate_refl a zero i = refl
accumulate_refl a (suc n) i = rw (bit_xor_refl (byte_at a i)) (accumulate_refl a n (suc i))

same_bytes :
    (a b : Bytes)
    → length a ≡ length b
    → ((k : ℕ) → k < length a → byte_at a k ≡ byte_at b k)
    → a ≡ b
unfolding byte_at
same_bytes [] [] e h = refl
same_bytes [] (y ∷ b) e h = absurd (omega (arith, e))
same_bytes (x ∷ a) [] e h = absurd (omega (arith, e))
same_bytes (x ∷ a) (y ∷ b) e h =
    let head : x ≡ y = h 0 (omega arith) in
    let tail : a ≡ b = same_bytes a b (omega (arith, e)) (λ k p. h (suc k) (omega (arith, p))) in
    rw (head, tail) refl

-- The comparison that always walks the longer input says whether the two are the same bytes.
pub constant_time_eq_iff : (a b : Bytes) → (constant_time_eq a b ≡ true) ↔ (a ≡ b)
unfolding constant_time_eq
constant_time_eq_iff a b = (to, from)
  where
    to : constant_time_eq a b ≡ true → a ≡ b
    to h =
        let (d, same) =
          accumulate-zero a b (max (length a) (length b)) 0 (bit_xor (length a) (length b))
            ((==_iff _ 0).0 h) in
        let l = bit_xor-zero (length a) (length b) d in
        same_bytes a b l (λ k p. same k (omega arith) (omega (arith, p)))

    from : a ≡ b → constant_time_eq a b ≡ true
    from e =
        rw e (rw (bit_xor_refl (length b), accumulate_refl b (max (length b) (length b)) 0) refl)

as_bytes-append : (s t : Text) → as_bytes (s ++ t) ≡ as_bytes s ++ as_bytes t
unfolding as_bytes
as_bytes-append [] t = refl
as_bytes-append (c ∷ s) t =
    ap (λ x. char_bytes c ++ x) (as_bytes-append s t)
    ∙ sym (append_assoc (char_bytes c) (as_bytes s) (as_bytes t))

as_bytes-colon : (s : Text) → as_bytes (b':' ∷ s) ≡ b':' ∷ as_bytes s
unfolding as_bytes char_bytes
as_bytes-colon s = refl

abbrev pub Scalars : Text → Type 0
Scalars s = All (λ c. is_scalar c ≡ true) s

abbrev pub NoColon : Text → Type 0
NoColon s = All (λ c. (c == b':') ≡ false) s

All-left : (P : ℕ → Type 0) (s t : Text) → All P (s ++ t) → All P s
All-left P [] t h = tt
All-left P (c ∷ s) t (p, h) = (p, All-left P s t h)

halves_eq_iff :
    (expected : Credential) (u p : Text)
    → (halves_eq expected (u, p) ≡ true)
      ↔ ((as_bytes u ≡ as_bytes expected.username) × (as_bytes p ≡ as_bytes expected.password))
unfolding halves_eq
halves_eq_iff expected u p = ground (
  arith,
  constant_time_eq_iff (as_bytes u) (as_bytes expected.username),
  constant_time_eq_iff (as_bytes p) (as_bytes expected.password),
)

-- The form of `username:password`.
abbrev pub user_pass : Credential → Text
user_pass c = c.username ++ b':' ∷ c.password

halves_sound :
    (expected : Credential) (bytes : Bytes) (u p : Text)
    → Scalars expected.username
    → decoded_halves (some bytes) ≡ some (u, p)
    → halves_eq expected (u, p) ≡ true
    → NoColon expected.username × (bytes ≡ as_bytes (user_pass expected))
halves_sound expected bytes u p w h k = elim (Option-cases (from_utf8 bytes)) [
  | inl e ↦ absurd (ground (arith, e, h))
  | inr (s, e) ↦
      let (form, scalars) = from_utf8_sound bytes s e in
      let (join, free) = split_once-eq-some b':' s u p (ground (arith, e, h)) in
      let (same_user, same_pass) = (halves_eq_iff expected u p).0 k in
      let user : u ≡ expected.username =
        as_bytes_inj u expected.username
          (All-left (λ c. is_scalar c ≡ true) u (b':' ∷ p) (rw join at scalars)) w same_user in
      (
        rw user at free,
        sym form
            ∙ ap as_bytes join
            ∙ as_bytes-append u (b':' ∷ p)
            ∙ ap (λ x. x ++ as_bytes (b':' ∷ p)) same_user
            ∙ ap (λ x. as_bytes expected.username ++ x)
                (as_bytes-colon p
                  ∙ ap (◌∷◌ b':') same_pass
                  ∙ sym (as_bytes-colon expected.password))
            ∙ sym (as_bytes-append expected.username (b':' ∷ expected.password)),
      )
]

halves_complete :
    (expected : Credential)
    → Scalars expected.username
    → Scalars expected.password
    → NoColon expected.username
    → (decoded_halves (some (as_bytes (user_pass expected)))
        ≡ some (expected.username, expected.password))
      × (halves_eq expected (expected.username, expected.password) ≡ true)
unfolding is_scalar
halves_complete expected u p free = (
  rw
      (
        from_utf8-as_bytes (user_pass expected) (
            All-append (λ c. is_scalar c ≡ true) expected.username (b':' ∷ expected.password) u
              (refl, p)),
        split_once_join b':' expected.username expected.password free,
      )
      refl,
  (halves_eq_iff expected expected.username expected.password).1 (refl, refl),
)

module _ {HeaderValue : Type 0} (to_str : HeaderValue → Option Text)
    (base64_decode : Text → Option Bytes) where
  pub authorized_iff :
      (expected : Credential) (header : Option HeaderValue)
      → Scalars expected.username
      → Scalars expected.password
      → (authorized to_str base64_decode expected header ≡ true) ↔ (
          NoColon expected.username
          × (decoded_bytes to_str base64_decode header ≡ some (as_bytes (user_pass expected))))
  unfolding authorized
  authorized_iff expected header u p = (to (decoded_bytes to_str base64_decode header), from)
    where
      to :
          (bytes : Option Bytes)
          → unwrap_or (Option_map (halves_eq expected) (decoded_halves bytes)) false ≡ true
          → NoColon expected.username × (bytes ≡ some (as_bytes (user_pass expected)))
      to none h = cc
      to (some bytes) h = elim (Option-cases (decoded_halves (some bytes))) [
        | inl e ↦ absurd (ground (arith, e, h))
        | inr ((a, b), e) ↦
            let (free, q) = halves_sound expected bytes a b u e (ground (arith, e, h)) in
            (free, ap some q)
      ]

      from :
          NoColon expected.username
            × (decoded_bytes to_str base64_decode header ≡ some (as_bytes (user_pass expected)))
          → authorized to_str base64_decode expected header ≡ true
      from (free, e) = let (q, r) = halves_complete expected u p free in rw (e, q, r) refl

  live_credential-username :
      (expected : Credential) (env_root pinned : Option Text)
      → (live_credential expected env_root pinned).username ≡ expected.username
  unfolding live_credential
  live_credential-username expected none pinned = refl
  live_credential-username expected (some root) none = refl
  live_credential-username expected (some root) (some pin) =
      if_elim (λ (c : Credential). c.username ≡ expected.username) (follows_pin expected root pin) _
        _ (λ e. refl) (λ e. refl)

  live_credential-Scalars :
      (expected : Credential) (env_root pinned : Option Text)
      → Scalars expected.password
      → Scalars (unwrap_or pinned [])
      → Scalars (live_credential expected env_root pinned).password
  unfolding live_credential
  live_credential-Scalars expected none pinned h k = h
  live_credential-Scalars expected (some root) none h k = h
  live_credential-Scalars expected (some root) (some pin) h k =
      if_elim (λ (c : Credential). Scalars c.password) (follows_pin expected root pin) _ _ (λ e. k)
        (λ e. h)

  -- With a credential configured, the layer lets a request through exactly when the configured user
  -- name has no colon and the header is `basic`, in any case, white space, and the base64 form of that
  -- user name, a colon and the live password in UTF-8. The live password is the pinned one where there
  -- is one and the configured password is the trimmed root password of this boot, else the configured
  -- one. All texts are of Unicode scalar values.
  pub require-next_run_iff :
      (expected : Credential) (env_root pinned : Option Text) (header : Option HeaderValue)
      → Scalars expected.username
      → Scalars expected.password
      → Scalars (unwrap_or pinned [])
      → (require to_str base64_decode (some expected) env_root pinned header ≡ next_run) ↔ (
          NoColon expected.username
          × (password : Text) × IsLive expected env_root pinned password
          × CarriesBytes to_str base64_decode header
              (as_bytes (expected.username ++ b':' ∷ password)))
  unfolding require
  require-next_run_iff expected env_root pinned header u p q =
      let live = live_credential expected env_root pinned in
      let same = live_credential-username expected env_root pinned in
      let is_live = live_credential-IsLive expected env_root pinned in
      let (to, from) =
        authorized_iff live header (subst Scalars (sym same) u)
          (live_credential-Scalars expected env_root pinned p q) in
      (
        λ h.
            let (free, e) = to (ground (arith, h)) in
            (
              subst NoColon same free,
              live.password,
              is_live,
              (decoded_bytes_iff to_str base64_decode header _).0
                  (e ∙ ap (λ x. some (as_bytes (x ++ b':' ∷ live.password))) same),
            ),
        λ (free, password, live_too, carried).
            let bytes = (decoded_bytes_iff to_str base64_decode header _).1 carried in
            let one =
              IsLive-unique expected env_root pinned password live.password live_too is_live in
            let t = from (
              subst NoColon (sym same) free,
              bytes
                  ∙ ap (λ x. some (as_bytes (expected.username ++ b':' ∷ x))) one
                  ∙ ap (λ x. some (as_bytes (x ++ b':' ∷ live.password))) (sym same),
            ) in
            ground (arith, t),
      )
