-- ===== src/Text/Utf8/Sound.antt =====
-- What the UTF-8 decoder accepts is the form of the text that it gives.
use mongo_ha.Base.{
  ltb, leb, ◌==◌, if◌then◌else◌, Bool-cases, All, ℕ, ◌+◌, ◌-◌, ◌*◌, ◌≡◌, refl, sym, ap, ◌∙◌, ◌⊎◌,
  inl, inr, true, false, ◌&&◌, Option, none, some, [], ◌∷◌, ◌++◌, arith,
}
use mongo_ha.Text.{Text}
use mongo_ha.Text.Utf8.{Bytes, is_scalar, char_bytes, as_bytes, start, emit, decode_from, from_utf8}

emit-some :
    (c : ℕ) (rest : Option Text) (s : Text)
    → emit (some c) rest ≡ some s
    → (t : Text) × (rest ≡ some t) × (s ≡ c ∷ t)
emit-some c none s h = absurd (ground arith)
emit-some c (some t) s h = (t, refl, ground arith)

abbrev pub Decodes : Bytes → Type 0
Decodes bytes =
    (s : Text)
    → decode_from start bytes ≡ some s
    → (as_bytes s ≡ bytes) × All (λ c. is_scalar c ≡ true) s

-- The decoder starts with the character `c`, whose bytes these are.
abbrev Starts : ℕ → Bytes → Bytes → Type 0
Starts c bytes rest =
    (decode_from start bytes ≡ emit (some c) (decode_from start rest))
    × (char_bytes c ++ rest ≡ bytes)
    × (is_scalar c ≡ true)

Starts-Decodes :
    (c : ℕ) (bytes rest : Bytes)
    → (decode_from start bytes ≡ none) ⊎ Starts c bytes rest
    → Decodes rest
    → Decodes bytes
unfolding as_bytes
Starts-Decodes c bytes rest (inl n) ih s e = absurd (ground (arith, n, e))
Starts-Decodes c bytes rest (inr (q, f, v)) ih s e =
    let (t, r, p) = emit-some c (decode_from start rest) s (sym q ∙ e) in
    let (l, w) = ih t r in (rw p (ap (λ x. char_bytes c ++ x) l ∙ f), rw p (v, w))

one_byte :
    (b : ℕ) (rest : Bytes)
    → (ltb b 0x80 ≡ true)
    → (decode_from start (b ∷ rest) ≡ none) ⊎ Starts b (b ∷ rest) rest
unfolding decode_from char_bytes is_scalar
one_byte b rest h = inr (ground (arith, h), ground (arith, h), ground (arith, h))

-- A byte in the range of a state.
in_range : (low high b : ℕ) → (leb low b && leb b high ≡ true) ⊎ (leb low b && leb b high ≡ false)
in_range low high b = Bool-cases (leb low b && leb b high)

two_bytes :
    (b c : ℕ) (rest : Bytes)
    → ltb b 0x80 ≡ false
    → ltb b 0xe0 ≡ true
    → (decode_from start (b ∷ c ∷ rest) ≡ none)
      ⊎ Starts ((b - 0xc0) * 64 + (c - 0x80)) (b ∷ c ∷ rest) rest
unfolding decode_from char_bytes is_scalar
two_bytes b c rest h k = elim (Bool-cases (ltb b 0xc2)) [
  | inl e ↦ inl (ground (arith, h, e))
  | inr e ↦ elim (in_range 0x80 0xbf c) [
    | inr f ↦ inl (ground (arith, h, k, e, f))
    | inl f ↦
        inr (ground (arith, h, k, e, f), ground (arith, h, k, e, f), ground (arith, h, k, e, f))
  ]
]

three_bytes :
    (b c d : ℕ) (rest : Bytes)
    → ltb b 0xe0 ≡ false
    → ltb b 0xf0 ≡ true
    → (decode_from start (b ∷ c ∷ d ∷ rest) ≡ none)
      ⊎ Starts (((b - 0xe0) * 64 + (c - 0x80)) * 64 + (d - 0x80)) (b ∷ c ∷ d ∷ rest) rest
unfolding decode_from char_bytes is_scalar
three_bytes b c d rest h k =
    let low : ℕ = if b == 0xe0 then 0xa0 else 0x80 in
    let high : ℕ = if b == 0xed then 0x9f else 0xbf in
    elim (in_range low high c) [
      | inr e ↦ inl (ground (arith, h, k, e))
      | inl e ↦ elim (in_range 0x80 0xbf d) [
        | inr f ↦ inl (ground (arith, h, k, e, f))
        | inl f ↦
            inr (ground (arith, h, k, e, f), ground (arith, h, k, e, f), ground (arith, h, k, e, f))
      ]
    ]

four_bytes :
    (b c d x : ℕ) (rest : Bytes)
    → ltb b 0xf0 ≡ false
    → (decode_from start (b ∷ c ∷ d ∷ x ∷ rest) ≡ none)
      ⊎ Starts
          ((((b - 0xf0) * 64 + (c - 0x80)) * 64 + (d - 0x80)) * 64 + (x - 0x80))
          (b ∷ c ∷ d ∷ x ∷ rest)
          rest
unfolding decode_from char_bytes is_scalar
four_bytes b c d x rest h =
    let low : ℕ = if b == 0xf0 then 0x90 else 0x80 in
    let high : ℕ = if b == 0xf4 then 0x8f else 0xbf in
    elim (Bool-cases (ltb b 0xf5)) [
      | inr k ↦ inl (ground (arith, h, k))
      | inl k ↦ elim (in_range low high c) [
        | inr e ↦ inl (ground (arith, h, k, e))
        | inl e ↦ elim (in_range 0x80 0xbf d) [
          | inr f ↦ inl (ground (arith, h, k, e, f))
          | inl f ↦ elim (in_range 0x80 0xbf x) [
            | inr g ↦ inl (ground (arith, h, k, e, f, g))
            | inl g ↦ inr (
              ground (arith, h, k, e, f, g),
              ground (arith, h, k, e, f, g),
              ground (arith, h, k, e, f, g),
            )
          ]
        ]
      ]
    ]

-- A sequence that ends inside a character is refused.
cut_short : (bytes : Bytes) → decode_from start bytes ≡ none → Decodes bytes
cut_short bytes n s e = absurd (ground (arith, n, e))

short_one : (b : ℕ) → ltb b 0x80 ≡ false → decode_from start (b ∷ []) ≡ none
unfolding decode_from
short_one b h = ground (arith, h)

short_two : (b c : ℕ) → ltb b 0xe0 ≡ false → decode_from start (b ∷ c ∷ []) ≡ none
unfolding decode_from
short_two b c h = ground (arith, h)

short_three : (b c d : ℕ) → ltb b 0xf0 ≡ false → decode_from start (b ∷ c ∷ d ∷ []) ≡ none
unfolding decode_from
short_three b c d h = ground (arith, h)

decodes : (bytes : Bytes) → Decodes bytes
unfolding decode_from as_bytes
decodes [] = λ s e. ground (arith, e)
decodes (b ∷ []) = elim (Bool-cases (ltb b 0x80)) [
  | inl h ↦ Starts-Decodes b (b ∷ []) [] (one_byte b [] h) (decodes [])
  | inr h ↦ cut_short (b ∷ []) (short_one b h)
]
decodes (b ∷ c ∷ []) = elim (Bool-cases (ltb b 0x80)) [
  | inl h ↦ Starts-Decodes b (b ∷ c ∷ []) (c ∷ []) (one_byte b (c ∷ []) h) (decodes (c ∷ []))
  | inr h ↦ elim (Bool-cases (ltb b 0xe0)) [
    | inl k ↦ Starts-Decodes _ (b ∷ c ∷ []) [] (two_bytes b c [] h k) (decodes [])
    | inr k ↦ cut_short (b ∷ c ∷ []) (short_two b c k)
  ]
]
decodes (b ∷ c ∷ d ∷ []) = elim (Bool-cases (ltb b 0x80)) [
  | inl h ↦
      Starts-Decodes b (b ∷ c ∷ d ∷ []) (c ∷ d ∷ []) (one_byte b (c ∷ d ∷ []) h)
        (decodes (c ∷ d ∷ []))
  | inr h ↦ elim (Bool-cases (ltb b 0xe0)) [
    | inl k ↦
        Starts-Decodes _ (b ∷ c ∷ d ∷ []) (d ∷ []) (two_bytes b c (d ∷ []) h k) (decodes (d ∷ []))
    | inr k ↦ elim (Bool-cases (ltb b 0xf0)) [
      | inl l ↦ Starts-Decodes _ (b ∷ c ∷ d ∷ []) [] (three_bytes b c d [] k l) (decodes [])
      | inr l ↦ cut_short (b ∷ c ∷ d ∷ []) (short_three b c d l)
    ]
  ]
]
decodes (b ∷ c ∷ d ∷ x ∷ rest) = elim (Bool-cases (ltb b 0x80)) [
  | inl h ↦
      Starts-Decodes b (b ∷ c ∷ d ∷ x ∷ rest) (c ∷ d ∷ x ∷ rest) (one_byte b (c ∷ d ∷ x ∷ rest) h)
        (decodes (c ∷ d ∷ x ∷ rest))
  | inr h ↦ elim (Bool-cases (ltb b 0xe0)) [
    | inl k ↦
        Starts-Decodes _ (b ∷ c ∷ d ∷ x ∷ rest) (d ∷ x ∷ rest) (two_bytes b c (d ∷ x ∷ rest) h k)
          (decodes (d ∷ x ∷ rest))
    | inr k ↦ elim (Bool-cases (ltb b 0xf0)) [
      | inl l ↦
          Starts-Decodes _ (b ∷ c ∷ d ∷ x ∷ rest) (x ∷ rest) (three_bytes b c d (x ∷ rest) k l)
            (decodes (x ∷ rest))
      | inr l ↦
          Starts-Decodes _ (b ∷ c ∷ d ∷ x ∷ rest) rest (four_bytes b c d x rest l) (decodes rest)
    ]
  ]
]

pub from_utf8_sound :
    (bytes : Bytes)
    → (s : Text) → from_utf8 bytes ≡ some s
    → (as_bytes s ≡ bytes) × All (λ c. is_scalar c ≡ true) s
unfolding from_utf8
from_utf8_sound = decodes
