-- ===== src/Text/Trim.antt =====
-- `char::is_whitespace` (Unicode White_Space) and `str::trim`.
use mathlib.Core.List.{reverse, reverse-reverse, reverse-cons}
use mongo_ha.Base.{
  All, All-append, false, ℕ, ◌≡◌, refl, Bool, ◌&&◌, ◌||◌, [], ◌∷◌, ◌==◌, leb, if◌then◌else◌,
}
use mongo_ha.Text.{Text, codes}

unfoldable pub is_whitespace : ℕ → Bool
is_whitespace c =
    (leb 9 c && leb c 13)
    || c == 32
    || c == 0x85
    || c == 0xa0
    || c == 0x1680
    || (leb 0x2000 c && leb c 0x200a)
    || c == 0x2028
    || c == 0x2029
    || c == 0x202f
    || c == 0x205f
    || c == 0x3000

unfoldable pub trim_start : Text → Text
unfolding is_whitespace
trim_start [] = []
trim_start (c ∷ s) = let rest = trim_start s in if is_whitespace c then rest else c ∷ s

unfoldable pub trim : Text → Text
unfolding trim_start
trim s = reverse (trim_start (reverse (trim_start s)))

trim_both_ends : trim (codes "  mongo-1 :27017 ") ≡ codes "mongo-1 :27017"
unfolding trim
trim_both_ends = refl

-- A text without white space.
abbrev pub NoWhitespace : Text → Type 0
NoWhitespace s = All (λ c. is_whitespace c ≡ false) s

trim_start_id : (s : Text) → NoWhitespace s → trim_start s ≡ s
unfolding trim_start
trim_start_id [] h = refl
trim_start_id (c ∷ s) (p, h) = rw p refl

reverse-NoWhitespace : (s : Text) → NoWhitespace s → NoWhitespace (reverse s)
reverse-NoWhitespace [] h = h
reverse-NoWhitespace (c ∷ s) (p, h) = rw (reverse-cons c s) (
    All-append (λ c. is_whitespace c ≡ false) (reverse s) (c ∷ []) (reverse-NoWhitespace s h)
      (p, tt))

pub trim_id : (s : Text) → NoWhitespace s → trim s ≡ s
unfolding trim
trim_id s h =
    rw (trim_start_id s h, trim_start_id (reverse s) (reverse-NoWhitespace s h)) (reverse-reverse s)
