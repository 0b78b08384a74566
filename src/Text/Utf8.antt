-- ===== src/Text/Utf8.antt =====
-- `str::as_bytes` and `String::from_utf8`: the UTF-8 form of a text and the decoder of the
-- well-formed byte sequences.
pub mod Sound
use mongo_ha.Base.{
  ltb, leb, ◌==◌, if◌then◌else◌, ltb→lt, lt→ltb, leb→le, le→leb, leb→gt, ltb→ge, ==_iff, tests,
  Bool-cases, Option-cases, and_true, or_false, is_some, is_some_and, or_else, unwrap_or,
  Option_filter, and_then, Option_map, if_elim, All, Any, In, length, any, all, find, filter, count,
  position, length-append, count-le-length, find-eq-some, find-eq-none, any-eq-false, any-eq-true,
  all-eq-true, find_map, filter_map, All-append, All-In, Any-In, In-filter, In-map, List-cases,
  filter_map-append, filter_map-filter, filter-append, All-of_In, filter_map-In, In-filter_map,
  In-append_left, In-append_right, In-append, In-guard, guard-In, append_nil, append_assoc,
  Duration, Instant, nanos_per_sec, from_secs, from_millis, as_secs, duration_since, bit_xor-zero,
  bit_xor_refl, bit_or-zero, ℕ, zero, suc, ◌+◌, ◌-◌, ◌*◌, ◌/◌, ◌%◌, ◌^◌, bit_or, bit_xor, ◌≤◌, ◌<◌,
  min, max, String, ◌≡◌, refl, sym, ap, ◌∙◌, ◌≢◌, ◌↔◌, ◌⊎◌, inl, inr, Bool, true, false, not, ◌&&◌,
  ◌||◌, Option, none, some, List, [], ◌∷◌, ◌++◌, map, arith,
}
use mongo_ha.Text.{Text, codes, text_eq, text_eq_refl, text_eq_iff, text_eq-ne}

abbrev pub Bytes : Type 0
Bytes = List ℕ

-- A Unicode scalar value.
unfoldable pub is_scalar : ℕ → Bool
is_scalar c = ltb c 0xd800 || (leb 0xe000 c && ltb c 0x110000)

unfoldable pub char_bytes : ℕ → Bytes
char_bytes c =
    if ltb c 0x80
    then c ∷ []
    else (if ltb c 0x800
        then (0xc0 + c / 64) ∷ (0x80 + c % 64) ∷ []
        else (if ltb c 0x10000
            then (0xe0 + c / 4096) ∷ (0x80 + (c / 64) % 64) ∷ (0x80 + c % 64) ∷ []
            else (0xf0 + c / 262144)
              ∷ (0x80 + (c / 4096) % 64)
              ∷ (0x80 + (c / 64) % 64)
              ∷ (0x80 + c % 64)
              ∷ []))

unfoldable pub as_bytes : Text → Bytes
unfolding char_bytes
as_bytes [] = []
as_bytes (c ∷ s) = char_bytes c ++ as_bytes s

-- Between characters, or inside one: how many bytes follow the next one, the bits so far, and
-- the range that the next byte has to be in.
pub data Decoder : Type 0 where
  start : Decoder
  inside : ℕ → ℕ → ℕ → ℕ → Decoder

abbrev pub lead_byte : ℕ → Option (Decoder × Option ℕ)
lead_byte b =
    if ltb b 0x80
    then some (start, some b)
    else (if ltb b 0xc2
        then none
        else (if ltb b 0xe0
            then some (inside 0 (b - 0xc0) 0x80 0xbf, none)
            else (if ltb b 0xf0
                then some (
                  inside 1 (b - 0xe0) (if b == 0xe0 then 0xa0 else 0x80)
                      (if b == 0xed then 0x9f else 0xbf),
                  none,
                )
                else (if ltb b 0xf5
                    then some (
                      inside 2 (b - 0xf0) (if b == 0xf0 then 0x90 else 0x80)
                          (if b == 0xf4 then 0x8f else 0xbf),
                      none,
                    )
                    else none))))

abbrev pub next_bits : ℕ → ℕ → ℕ
next_bits bits b = bits * 64 + (b - 0x80)

-- The state after a byte, and the character that it completes.
unfoldable pub decode_step : Decoder → ℕ → Option (Decoder × Option ℕ)
decode_step start b = lead_byte b
decode_step (inside zero bits low high) b =
    if leb low b && leb b high then some (start, some (next_bits bits b)) else none
decode_step (inside (suc k) bits low high) b =
    if leb low b && leb b high then some (inside k (next_bits bits b) 0x80 0xbf, none) else none

abbrev pub emit : Option ℕ → Option Text → Option Text
emit none rest = rest
emit (some c) none = none
emit (some c) (some s) = some (c ∷ s)

unfoldable pub decode_from : Decoder → Bytes → Option Text
unfolding decode_step
decode_from start [] = some []
decode_from (inside k bits low high) [] = none
decode_from d (b ∷ s) = elim (decode_step d b) [
  | none ↦ none
  | some (d2, out) ↦ emit out (decode_from d2 s)
]

unfoldable pub from_utf8 : Bytes → Option Text
unfolding decode_from
from_utf8 s = decode_from start s

-- One character more or less in front.
decode_from-char_bytes :
    (c : ℕ) (rest : Bytes)
    → is_scalar c ≡ true
    → decode_from start (char_bytes c ++ rest) ≡ emit (some c) (decode_from start rest)
unfolding is_scalar char_bytes decode_from
decode_from-char_bytes c rest h = ground (arith, h)

pub from_utf8-as_bytes :
    (s : Text) → All (λ c. is_scalar c ≡ true) s → from_utf8 (as_bytes s) ≡ some s
unfolding from_utf8 as_bytes
from_utf8-as_bytes [] h = refl
from_utf8-as_bytes (c ∷ s) (p, h) =
    decode_from-char_bytes c (as_bytes s) p ∙ ap (emit (some c)) (from_utf8-as_bytes s h)

pub as_bytes_inj :
    (s t : Text)
    → All (λ c. is_scalar c ≡ true) s
    → All (λ c. is_scalar c ≡ true) t
    → as_bytes s ≡ as_bytes t
    → s ≡ t
as_bytes_inj s t h k e =
    ground (arith, sym (from_utf8-as_bytes s h) ∙ ap from_utf8 e ∙ from_utf8-as_bytes t k)
