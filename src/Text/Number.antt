-- ===== src/Text/Number.antt =====
-- `str::parse` of an unsigned number and its `Display`.
use mongo_ha.Base.{
  ltb, leb, ◌==◌, if◌then◌else◌, Option_filter, ℕ, zero, suc, ◌+◌, ◌-◌, ◌*◌, ◌/◌, ◌%◌, ◌^◌, ◌≡◌,
  refl, Bool, ◌&&◌, Option, none, some, [], ◌∷◌, ◌++◌,
}
use mongo_ha.Text.{Text, codes}

unfoldable pub is_digit : ℕ → Bool
is_digit c = leb 48 c && leb c 57

-- The digits read so far stand for `acc`.
unfoldable pub digits_from : ℕ → Text → Option ℕ
unfolding is_digit
digits_from acc [] = some acc
digits_from acc (c ∷ s) =
    let rest = digits_from (acc * 10 + (c - 48)) s in if is_digit c then rest else none

abbrev pub digits : Text → Option ℕ
digits [] = none
digits (c ∷ s) = digits_from 0 (c ∷ s)

-- A leading `+` is skipped.
abbrev pub unsigned_digits : Text → Option ℕ
unsigned_digits [] = none
unsigned_digits (c ∷ s) = if c == 43 then digits s else digits (c ∷ s)

-- `parse::<u16>()`, `parse::<u32>()`, `parse::<u64>()`: below `bound`.
unfoldable pub parse_unsigned : ℕ → Text → Option ℕ
unfolding digits_from
parse_unsigned bound s = Option_filter (λ n. ltb n bound) (unsigned_digits s)

-- `Display` of a number with at most `width` digits; u64 has 20.
unfoldable pub decimal_within : ℕ → ℕ → Text
decimal_within zero n = []
decimal_within (suc width) n =
    let rest = decimal_within width (n / 10) in
    if ltb n 10 then (48 + n) ∷ [] else rest ++ (48 + n % 10) ∷ []

unfoldable pub decimal : ℕ → Text
unfolding decimal_within
decimal n = decimal_within 20 n

parse_port : parse_unsigned (2 ^ 16) (codes "27017") ≡ some 27017
unfolding parse_unsigned
parse_port = refl

port_too_large : parse_unsigned (2 ^ 16) (codes "65536") ≡ none
unfolding parse_unsigned
port_too_large = refl

print_port : decimal 27017 ≡ codes "27017"
unfolding decimal
print_port = refl
