-- ===== src/Fcv/Series.antt =====
-- A series that is printed and parsed again, and what it says of a raise.
use mongo_ha.Base.{
  ◌==◌, Option-cases, All, All-append, ℕ, ◌^◌, ◌<◌, ◌≡◌, refl, ap, inl, inr, true, false, some,
  List, [], ◌∷◌, arith,
}
use mongo_ha.Text.{Text}
use mongo_ha.Text.Number.{is_digit, unsigned_digits, parse_unsigned, decimal}
use mongo_ha.Text.Decimal.{parse_unsigned-decimal, decimal_within_digits}
use mongo_ha.Text.Trim.{is_whitespace, trim, NoWhitespace, trim_id}
use mongo_ha.Text.Split.{split, split_two}
use mongo_ha.Mongo.{ok}
use mongo_ha.Fcv.{
  Fcv, Role, MemberSeries, up_to_date, raise_to, Series, series_ltb, series_eq, leading_digits,
  series_of_pieces, parse_series, series_text, decide, raise,
}
use mongo_ha.Fcv.Raise.{decide-raise_iff, raise-Verified_iff}

abbrev Digits : Text → Type 0
Digits s = All (λ c. is_digit c ≡ true) s

decimal-Digits : (n : ℕ) → Digits (decimal n)
unfolding decimal
decimal-Digits n = decimal_within_digits 20 n

digit-no_whitespace : (c : ℕ) → is_digit c ≡ true → is_whitespace c ≡ false
unfolding is_digit is_whitespace
digit-no_whitespace c h = ground (arith, h)

digit-no_dot : (c : ℕ) → is_digit c ≡ true → (c == b'.') ≡ false
unfolding is_digit
digit-no_dot c h = ground (arith, h)

Digits-NoWhitespace : (s : Text) → Digits s → NoWhitespace s
Digits-NoWhitespace [] h = tt
Digits-NoWhitespace (c ∷ s) (p, h) = (digit-no_whitespace c p, Digits-NoWhitespace s h)

Digits-no_dot : (s : Text) → Digits s → All (λ c. (c == b'.') ≡ false) s
Digits-no_dot [] h = tt
Digits-no_dot (c ∷ s) (p, h) = (digit-no_dot c p, Digits-no_dot s h)

leading_digits_id : (s : Text) → Digits s → leading_digits s ≡ s
unfolding leading_digits
leading_digits_id [] h = refl
leading_digits_id (c ∷ s) (p, h) = rw p (ap (◌∷◌ c) (leading_digits_id s h))

series_text-NoWhitespace : (s : Series) → NoWhitespace (series_text s)
unfolding series_text is_whitespace
series_text-NoWhitespace (major, minor) =
    All-append (λ c. is_whitespace c ≡ false) (decimal major) (b'.' ∷ decimal minor)
      (Digits-NoWhitespace (decimal major) (decimal-Digits major))
      (refl, Digits-NoWhitespace (decimal minor) (decimal-Digits minor))

series_text-split :
    (major minor : ℕ) → split b'.' (series_text (major, minor)) ≡ decimal major ∷ decimal minor ∷ []
unfolding series_text
series_text-split major minor =
    split_two b'.' (decimal major) (decimal minor)
      (Digits-no_dot (decimal major) (decimal-Digits major))
      (Digits-no_dot (decimal minor) (decimal-Digits minor))

-- A series whose numbers are u32 is printed to a text that parses to the same series.
pub parse_series-series_text :
    (s : Series) → s.0 < 2 ^ 32 → s.1 < 2 ^ 32 → parse_series (series_text s) ≡ some s
unfolding parse_series
parse_series-series_text (major, minor) h k =
    rw
      (
        trim_id (series_text (major, minor)) (series_text-NoWhitespace (major, minor)),
        series_text-split major minor,
        leading_digits_id (decimal minor) (decimal-Digits minor),
        parse_unsigned-decimal (2 ^ 32) major h (omega (arith, h)),
        parse_unsigned-decimal (2 ^ 32) minor k (omega (arith, k)),
      )
      refl

parse_unsigned-bound : (bound n : ℕ) (s : Text) → parse_unsigned bound s ≡ some n → n < bound
unfolding parse_unsigned
parse_unsigned-bound bound n s h = elim (Option-cases (unsigned_digits s)) [
  | inl e ↦ absurd (ground (arith, h, e))
  | inr (m, e) ↦ ground (arith, h, e)
]

parse_series-bound :
    (version : Text) (s : Series) → parse_series version ≡ some s → (s.0 < 2 ^ 32) × (s.1 < 2 ^ 32)
unfolding parse_series
parse_series-bound version (a, b) h = go (split b'.' (trim version)) h
  where
    go : (pieces : List Text) → series_of_pieces pieces ≡ some (a, b) → (a < 2 ^ 32) × (b < 2 ^ 32)
    go [] e = cc
    go (x ∷ []) e = cc
    go (x ∷ y ∷ rest) e = elim (Option-cases (parse_unsigned (2 ^ 32) x)) [
      | inl n ↦ absurd (ground (arith, e, n))
      | inr (u, n) ↦ elim (Option-cases (parse_unsigned (2 ^ 32) (leading_digits y))) [
        | inl m ↦ absurd (ground (arith, e, n, m))
        | inr (v, m) ↦ (
          ground (arith, e, n, m, parse_unsigned-bound (2 ^ 32) u x n),
          ground (arith, e, n, m, parse_unsigned-bound (2 ^ 32) v (leading_digits y) m),
        )
      ]
    ]

-- A raise is upwards: the text that it sends parses to the series of the running binary, which is
-- above the series of the version before.
pub raise_upwards :
    (running : Text) (fcv : Fcv) (role : Role) (members : List MemberSeries) (to : Text)
    → decide running fcv role members ≡ raise_to to
    → (r : Series) × (c : Series) × (parse_series running ≡ some r)
      × (parse_series to ≡ some r)
      × (parse_series fcv.version ≡ some c)
      × (series_ltb c r ≡ true)
raise_upwards running fcv role members to h =
    let v = (decide-raise_iff running fcv role members to).0 h in
    let (lo, hi) = parse_series-bound running v.target_series v.running_parses in
    (
      v.target_series,
      v.current,
      v.running_parses,
      rw v.names_running (parse_series-series_text v.target_series lo hi),
      v.current_parses,
      v.upwards,
    )

series_eq_refl : (s : Series) → series_eq s s ≡ true
series_eq_refl (a, b) = ground arith

-- After a raise whose read verifies, the next round on that read is done, whatever the role and the
-- members are then.
pub raised-up_to_date :
    (running : Text) (fcv after : Fcv) (role later : Role) (members others : List MemberSeries)
    (to : Text)
    → decide running fcv role members ≡ raise_to to
    → raise to (ok after) ≡ ok tt
    → decide running after later others ≡ up_to_date
unfolding decide
raised-up_to_date running fcv after role later members others to h k =
    let (r, c, p, q, x, y) = raise_upwards running fcv role members to h in
    let (f, e, v, t) = (raise-Verified_iff to (ok after)).0 k in
    let a : after ≡ f = ground (arith, e) in rw (a, v, p, q, t, series_eq_refl r) refl
