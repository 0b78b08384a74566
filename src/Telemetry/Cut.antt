-- ===== src/Telemetry/Cut.antt =====
-- The cut of a logged body never falls inside a character.
use mathlib.Core.Path.{subst}
use mongo_ha.Base.{
  ltb, leb, if◌then◌else◌, ltb→lt, ltb→ge, Bool-cases, All, length, length-append, append_assoc, ℕ,
  zero, suc, ◌+◌, ◌-◌, ◌≤◌, ◌<◌, ◌≡◌, refl, sym, ap, ◌∙◌, ◌≢◌, inl, inr, Bool, true, false, some,
  [], ◌∷◌, ◌++◌, arith,
}
use mongo_ha.Text.{Text}
use mongo_ha.Text.Utf8.{Bytes, is_scalar, char_bytes, as_bytes, from_utf8, from_utf8-as_bytes}
use mongo_ha.Telemetry.{is_continuation, is_char_boundary, back_up, take_bytes, truncate}

take_bytes-length : (xs ys : Bytes) → take_bytes (length xs) (xs ++ ys) ≡ xs
unfolding take_bytes
take_bytes-length [] ys = refl
take_bytes-length (x ∷ xs) ys = ap (◌∷◌ x) (take_bytes-length xs ys)

-- A text starts with a byte that is no continuation.
abbrev StartsAtChar : Bytes → Type 0
StartsAtChar [] = Unit {0}
StartsAtChar (b ∷ bytes) = is_continuation b ≡ false

char_bytes-StartsAtChar : (c : ℕ) (rest : Bytes) → StartsAtChar (char_bytes c ++ rest)
unfolding char_bytes
char_bytes-StartsAtChar c rest = ground arith

-- The position `m` bytes after a sequence.
after : Bytes → ℕ → ℕ
after [] m = m
after (x ∷ xs) m = suc (after xs m)

after_lem : (xs : Bytes) (m : ℕ) → after xs m ≡ length xs + m
unfolding after
after_lem [] m = omega arith
after_lem (x ∷ xs) m = omega (arith, after_lem xs m)

boundary_after :
    (x : ℕ) (xs ys : Bytes)
    → StartsAtChar ys
    → is_char_boundary (x ∷ xs ++ ys) (suc (after xs 0)) ≡ true
unfolding is_char_boundary after
boundary_after x [] [] h = refl
boundary_after x [] (y ∷ ys) h = ground (arith, h)
boundary_after x (z ∷ xs) ys h = boundary_after z xs ys h

boundary_shift :
    (xs ys : Bytes) (m : ℕ)
    → is_char_boundary (xs ++ ys) (after xs (suc m)) ≡ is_char_boundary ys (suc m)
unfolding is_char_boundary after
boundary_shift [] ys m = refl
boundary_shift (x ∷ []) [] m = refl
boundary_shift (x ∷ []) (y ∷ ys) m = refl
boundary_shift (x ∷ z ∷ xs) ys m = boundary_shift (z ∷ xs) ys m

after-suc : (xs : Bytes) (m : ℕ) → after xs (suc m) ≡ suc (after xs m)
unfolding after
after-suc [] m = refl
after-suc (x ∷ xs) m = ap (λ n. suc n) (after-suc xs m)

back_up_step :
    (bytes : Bytes) (n : ℕ) (b : Bool)
    → is_char_boundary bytes (suc n) ≡ b
    → back_up bytes (suc n) ≡ (if b then suc n else back_up bytes n)
unfolding back_up
back_up_step bytes n b e = rw e refl

back_up-zero : (ys : Bytes) → back_up ys 0 ≡ 0
unfolding back_up
back_up-zero ys = refl

back_up_shift :
    (x : ℕ) (xs ys : Bytes) (m : ℕ)
    → StartsAtChar ys
    → back_up (x ∷ xs ++ ys) (after (x ∷ xs) m) ≡ after (x ∷ xs) (back_up ys m)
unfolding after
back_up_shift x xs ys zero h =
    back_up_step (x ∷ xs ++ ys) (after xs 0) true (boundary_after x xs ys h) ∙ zero_case
  where
    zero_case : suc (after xs 0) ≡ suc (after xs (back_up ys 0))
    zero_case = rw (back_up-zero ys) refl
back_up_shift x xs ys (suc m) h = go (is_char_boundary ys (suc m)) refl (back_up_shift x xs ys m h)
  where
    go :
        (b : Bool)
        → is_char_boundary ys (suc m) ≡ b
        → back_up (x ∷ xs ++ ys) (after (x ∷ xs) m) ≡ after (x ∷ xs) (back_up ys m)
        → back_up (x ∷ xs ++ ys) (after (x ∷ xs) (suc m)) ≡ after (x ∷ xs) (back_up ys (suc m))
    go true e rec =
        back_up_step (x ∷ xs ++ ys) (after xs (suc m)) true (boundary_shift (x ∷ xs) ys m ∙ e)
        ∙ ap (after (x ∷ xs)) (sym (back_up_step ys m true e))
    go false e rec =
        back_up_step (x ∷ xs ++ ys) (after xs (suc m)) false (boundary_shift (x ∷ xs) ys m ∙ e)
        ∙ ap (back_up (x ∷ xs ++ ys)) (after-suc xs m)
        ∙ rec
        ∙ ap (after (x ∷ xs)) (sym (back_up_step ys m false e))

as_bytes-StartsAtChar : (s : Text) → StartsAtChar (as_bytes s)
unfolding as_bytes
as_bytes-StartsAtChar [] = tt
as_bytes-StartsAtChar (c ∷ s) = char_bytes-StartsAtChar c (as_bytes s)

inside_char :
    (c n : ℕ) (rest : Bytes)
    → n < length (char_bytes c)
    → (back_up (char_bytes c ++ rest) n ≡ 0) × (n ≤ 3)
unfolding char_bytes back_up is_char_boundary
inside_char c zero rest h = (refl, omega arith)
inside_char c (suc zero) rest h = (ground (arith, h), omega arith)
inside_char c (suc (suc zero)) rest h = (ground (arith, h), omega arith)
inside_char c (suc (suc (suc zero))) rest h = (ground (arith, h), omega arith)
inside_char c (suc (suc (suc (suc n)))) rest h = absurd (ground (arith, h))

nonempty : (c : ℕ) → char_bytes c ≢ []
unfolding char_bytes
nonempty c e = ground (arith, e)

char_bytes-cons : (c : ℕ) → (x : ℕ) × (xs : Bytes) × (char_bytes c ≡ x ∷ xs)
char_bytes-cons c = go (char_bytes c) refl
  where
    go : (bs : Bytes) → char_bytes c ≡ bs → (x : ℕ) × (xs : Bytes) × (char_bytes c ≡ x ∷ xs)
    go [] e = absurd (nonempty c e)
    go (x ∷ xs) e = (x, xs, e)

char_shift :
    (c : ℕ) (ys : Bytes) (n : ℕ)
    → length (char_bytes c) ≤ n
    → StartsAtChar ys
    → back_up (char_bytes c ++ ys) n
      ≡ length (char_bytes c) + back_up ys (n - length (char_bytes c))
char_shift c ys n h st =
    let (x, xs, e) = char_bytes-cons c in
    let k = length (x ∷ xs) in
    let l : k ≤ n = subst (λ bs. length bs ≤ n) e h in
    let place : after (x ∷ xs) (n - k) ≡ n = omega (arith, after_lem (x ∷ xs) (n - k), l) in
    rw e (
      ap (back_up (x ∷ xs ++ ys)) (sym place)
      ∙ back_up_shift x xs ys (n - k) st
      ∙ after_lem (x ∷ xs) (back_up ys (n - k)))

-- The position that the loop finds is the length of a prefix of the text, at most 3 bytes lower.
record Cuts (s : Text) (n : ℕ) : Type 0 where
  prefix : Text
  rest : Text
  splits : s ≡ prefix ++ rest
  found : back_up (as_bytes s) n ≡ length (as_bytes prefix)
  close : n ≤ length (as_bytes prefix) + 3
  below : length (as_bytes prefix) ≤ n

cuts : (s : Text) (n : ℕ) → n ≤ length (as_bytes s) → Cuts s n
unfolding as_bytes
cuts [] n h = record {
  prefix = [];
  rest = [];
  splits = refl;
  found = let none_left : n ≡ 0 = omega (arith, h) in rw none_left (back_up-zero []);
  close = omega (arith, h);
  below = omega arith;
}
cuts (c ∷ s) n h = elim (Bool-cases (ltb n (length (char_bytes c)))) [
  | inl e ↦
      let (z, l) = inside_char c n (as_bytes s) (ltb→lt n (length (char_bytes c)) e) in
      record {
        prefix = [];
        rest = c ∷ s;
        splits = refl;
        found = z;
        close = omega (arith, l);
        below = omega arith;
      }
  | inr e ↦
      let k = length (char_bytes c) in
      let total = length-append (char_bytes c) (as_bytes s) in
      let r = cuts s (n - k) (omega (arith, h, total, ltb→ge n k e)) in
      let sum = length-append (char_bytes c) (as_bytes r.prefix) in
      record {
        prefix = c ∷ r.prefix;
        rest = r.rest;
        splits = ap (◌∷◌ c) r.splits;
        found = omega (
          arith,
          char_shift c (as_bytes s) n (ltb→ge n k e) (as_bytes-StartsAtChar s),
          r.found,
          sum,
        );
        close = omega (arith, r.close, sum);
        below = omega (arith, r.below, sum, ltb→ge n k e);
      }
]

as_bytes-append : (s t : Text) → as_bytes (s ++ t) ≡ as_bytes s ++ as_bytes t
unfolding as_bytes
as_bytes-append [] t = refl
as_bytes-append (c ∷ s) t =
    ap (λ x. char_bytes c ++ x) (as_bytes-append s t)
    ∙ sym (append_assoc (char_bytes c) (as_bytes s) (as_bytes t))

All-left : (s t : Text) → All (λ c. is_scalar c ≡ true) (s ++ t) → All (λ c. is_scalar c ≡ true) s
All-left [] t h = tt
All-left (c ∷ s) t (p, h) = (p, All-left s t h)

over : (n : ℕ) → 300 < n → leb n 300 ≡ false
over n h = ground arith

-- The text that is logged for a body: a prefix of it and an ellipsis.
pub record IsCut (body logged : Text) : Type 0 where
  pub prefix : Text
  pub rest : Text
  pub splits : body ≡ prefix ++ rest
  pub ends : logged ≡ prefix ++ 0x2026 ∷ []
  pub at_least : 297 ≤ length (as_bytes prefix)
  pub at_most : length (as_bytes prefix) ≤ 300

-- A body of Unicode scalar values that is longer than 300 bytes is logged without a panic, as a
-- prefix of its characters that has 297 to 300 bytes, with an ellipsis.
pub truncate-IsCut :
    (body : Text)
    → All (λ c. is_scalar c ≡ true) body
    → 300 < length (as_bytes body)
    → (logged : Text) × (truncate body ≡ some logged) × IsCut body logged
unfolding truncate
truncate-IsCut body h long =
    let c = cuts body 300 (omega (arith, long)) in
    let test : leb (length (as_bytes body)) 300 ≡ false = over (length (as_bytes body)) long in
    let bytes : as_bytes body ≡ as_bytes c.prefix ++ as_bytes c.rest =
      ap as_bytes c.splits ∙ as_bytes-append c.prefix c.rest in
    let slice : take_bytes (back_up (as_bytes body) 300) (as_bytes body) ≡ as_bytes c.prefix =
      ap (λ n. take_bytes n (as_bytes body)) c.found
      ∙ ap (take_bytes (length (as_bytes c.prefix))) bytes
      ∙ take_bytes-length (as_bytes c.prefix) (as_bytes c.rest) in
    let back : from_utf8 (as_bytes c.prefix) ≡ some c.prefix =
      from_utf8-as_bytes c.prefix
        (All-left c.prefix c.rest (subst (All (λ c. is_scalar c ≡ true)) c.splits h)) in
    (
      c.prefix ++ 0x2026 ∷ [],
      rw (test, slice, back) refl,
      record {
        prefix = c.prefix;
        rest = c.rest;
        splits = c.splits;
        ends = refl;
        at_least = omega (arith, c.close);
        at_most = c.below;
      },
    )
