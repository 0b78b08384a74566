-- ===== src/Text/Decimal.antt =====
-- A number that is printed and parsed again is the same number.
use mongo_ha.Base.{
  ltb, ◌==◌, Bool-cases, All, All-append, ℕ, zero, suc, ◌+◌, ◌-◌, ◌*◌, ◌/◌, ◌%◌, ◌^◌, ◌<◌, ◌≡◌, sym,
  ap, ◌∙◌, inl, inr, true, false, some, [], ◌∷◌, ◌++◌, arith,
}
use mongo_ha.Text.{Text}
use mongo_ha.Text.Number.{is_digit, digits_from, parse_unsigned, decimal_within, decimal}

digits_from-snoc :
    (s : Text) (acc n c : ℕ)
    → digits_from acc s ≡ some n
    → is_digit c ≡ true
    → digits_from acc (s ++ c ∷ []) ≡ some (n * 10 + (c - 48))
unfolding digits_from
digits_from-snoc [] acc n c e d = ground (arith, e, d)
digits_from-snoc (x ∷ s) acc n c e d = elim (Bool-cases (is_digit x)) [
  | inl h ↦
      ground (arith, h, e, digits_from-snoc s (acc * 10 + (x - 48)) n c (ground (arith, e, h)) d)
  | inr h ↦ absurd (ground (arith, h, e))
]

digits_from-decimal_within :
    (width n : ℕ) → n < 10 ^ suc width → digits_from 0 (decimal_within (suc width) n) ≡ some n
unfolding digits_from decimal_within is_digit
digits_from-decimal_within zero n h = ground (arith, h)
digits_from-decimal_within (suc width) n h = elim (Bool-cases (ltb n 10)) [
  | inl e ↦ ground (arith, e)
  | inr e ↦ ground (
    arith,
    e,
    digits_from-snoc (decimal_within (suc width) (n / 10)) 0 (n / 10) (48 + n % 10)
        (digits_from-decimal_within width (n / 10) (omega (arith, h))) (ground arith),
  )
]

-- It starts with a digit.
decimal_within-starts :
    (width n : ℕ)
    → (c : ℕ) × (s : Text) × (decimal_within (suc width) n ≡ c ∷ s) × (is_digit c ≡ true)
unfolding decimal_within is_digit
decimal_within-starts zero n = elim (Bool-cases (ltb n 10)) [
  | inl e ↦ (48 + n, [], ground (arith, e), ground (arith, e))
  | inr e ↦ (48 + n % 10, [], ground (arith, e), ground arith)
]
decimal_within-starts (suc width) n = elim (Bool-cases (ltb n 10)) [
  | inl e ↦ (48 + n, [], ground (arith, e), ground (arith, e))
  | inr e ↦
      let (c, s, q, d) = decimal_within-starts width (n / 10) in
      (c, s ++ (48 + n % 10) ∷ [], ground (arith, e, q), d)
]

parse_unsigned-digits :
    (bound n c : ℕ) (s : Text)
    → is_digit c ≡ true
    → digits_from 0 (c ∷ s) ≡ some n
    → n < bound
    → parse_unsigned bound (c ∷ s) ≡ some n
unfolding parse_unsigned is_digit
parse_unsigned-digits bound n c s d e h =
    let plus : (c == 43) ≡ false = ground (arith, d) in rw (plus, e) (ground (arith, h))

pub parse_unsigned-decimal :
    (bound n : ℕ) → n < bound → n < 10 ^ 20 → parse_unsigned bound (decimal n) ≡ some n
unfolding decimal
parse_unsigned-decimal bound n h k =
    let (c, s, q, d) = decimal_within-starts 19 n in
    rw q (
      parse_unsigned-digits bound n c s d
        (sym (ap (digits_from 0) q) ∙ digits_from-decimal_within 19 n k) h)

pub decimal_within_digits : (width n : ℕ) → All (λ c. is_digit c ≡ true) (decimal_within width n)
unfolding decimal_within is_digit
decimal_within_digits zero n = tt
decimal_within_digits (suc width) n = elim (Bool-cases (ltb n 10)) [
  | inl e ↦ rw e (ground (arith, e), tt)
  | inr e ↦ rw e (
      All-append (λ c. is_digit c ≡ true) (decimal_within width (n / 10)) ((48 + n % 10) ∷ [])
        (decimal_within_digits width (n / 10)) (ground arith, tt))
]
