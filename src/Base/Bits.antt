-- ===== src/Base/Bits.antt =====
-- What `^` and `|` on unsigned integers say about a zero result.
use Prim.Native.Nat.{
  ℕ, zero, suc, ◌/◌, ◌%◌, ◌≤◌, max, digits, differ, bit_or, bit_xor, bit_or-bitwise,
  bit_xor-bitwise,
}
use mathlib.Core.Path.{◌≡◌, refl, sym, ◌∙◌}
use native.Mathlib.Omega.{arith}

differ-zero : (x y : ℕ) → differ x y ≡ 0 → x ≡ y
differ-zero zero y h = sym h
differ-zero (suc x) zero h = absurd (omega arith)
differ-zero (suc x) (suc y) h = omega (arith, differ-zero x y h)

digits-differ-zero : (n a b : ℕ) → a ≤ n → digits (λ b. b) differ n a b ≡ 0 → a ≡ b
digits-differ-zero zero zero b le h = sym h
digits-differ-zero zero (suc a) b le h = absurd (omega arith)
digits-differ-zero (suc n) zero b le h = sym h
digits-differ-zero (suc n) (suc a) b le h = omega (
  arith,
  digits-differ-zero n (suc a / 2) (b / 2) (omega arith) (omega arith),
  differ-zero (suc a % 2) (b % 2) (omega arith),
)

pub bit_xor-zero : (a b : ℕ) → bit_xor a b ≡ 0 → a ≡ b
bit_xor-zero a b h = digits-differ-zero a a b (omega arith) (sym (bit_xor-bitwise a b) ∙ h)

differ_refl : (x : ℕ) → differ x x ≡ 0
differ_refl zero = refl
differ_refl (suc x) = differ_refl x

digits-differ_refl : (n a : ℕ) → a ≤ n → digits (λ b. b) differ n a a ≡ 0
digits-differ_refl zero zero le = refl
digits-differ_refl zero (suc a) le = absurd (omega arith)
digits-differ_refl (suc n) zero le = refl
digits-differ_refl (suc n) (suc a) le =
    omega (arith, digits-differ_refl n (suc a / 2) (omega arith), differ_refl (suc a % 2))

pub bit_xor_refl : (a : ℕ) → bit_xor a a ≡ 0
bit_xor_refl a = bit_xor-bitwise a a ∙ digits-differ_refl a a (omega arith)

digits-max-zero : (n a b : ℕ) → a ≤ n → digits (λ b. b) max n a b ≡ 0 → (a ≡ 0) × (b ≡ 0)
digits-max-zero zero zero b le h = (refl, h)
digits-max-zero zero (suc a) b le h = absurd (omega arith)
digits-max-zero (suc n) zero b le h = (refl, h)
digits-max-zero (suc n) (suc a) b le h =
    let r = digits-max-zero n (suc a / 2) (b / 2) (omega arith) (omega arith) in
    absurd (omega (arith, r.0))

pub bit_or-zero : (a b : ℕ) → bit_or a b ≡ 0 → (a ≡ 0) × (b ≡ 0)
bit_or-zero a b h = digits-max-zero a a b (omega arith) (sym (bit_or-bitwise a b) ∙ h)
