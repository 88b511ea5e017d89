-- ===== src/Base/Bits.antt =====
-- When the bitwise sum and difference of two numbers are zero.
use Prim.Native.Nat.{
  ℕ, zero, suc, ◌/◌, ◌%◌, ◌≤◌, max, bit_or, bit_xor, digits, differ, bit_or-bitwise,
  bit_xor-bitwise,
}
use mathlib.Core.Path.{◌≡◌, refl, sym, ap, ◌∙◌}
use native.Mathlib.Omega.{arith}

or_digits-zero : (n a b : ℕ) → a ≤ n → digits (λ y. y) max n a b ≡ 0 → (a ≡ 0) × (b ≡ 0)
or_digits-zero zero zero b h e = (refl, e)
or_digits-zero zero (suc a) b h e = absurd (omega arith)
or_digits-zero (suc n) zero b h e = (refl, e)
or_digits-zero (suc n) (suc a) b h e =
    let (p, q) = or_digits-zero n (suc a / 2) (b / 2) (omega arith) (omega arith) in omega arith

pub bit_or-eq-zero : (a b : ℕ) → bit_or a b ≡ 0 → (a ≡ 0) × (b ≡ 0)
bit_or-eq-zero a b e = or_digits-zero a a b (omega arith) (sym (λ i. bit_or-bitwise a b i) ∙ e)

pub bit_or_zero_zero : bit_or 0 0 ≡ 0
bit_or_zero_zero = refl

differ-eq-zero : (x y : ℕ) → differ x y ≡ 0 → x ≡ y
differ-eq-zero zero y e = sym e
differ-eq-zero (suc x) zero e = absurd (omega arith)
differ-eq-zero (suc x) (suc y) e = ap suc (differ-eq-zero x y e)

differ_self : (x : ℕ) → differ x x ≡ 0
differ_self zero = refl
differ_self (suc x) = differ_self x

xor_digits-zero : (n a b : ℕ) → a ≤ n → digits (λ y. y) differ n a b ≡ 0 → a ≡ b
xor_digits-zero zero zero b h e = sym e
xor_digits-zero zero (suc a) b h e = absurd (omega arith)
xor_digits-zero (suc n) zero b h e = sym e
xor_digits-zero (suc n) (suc a) b h e =
    let high = xor_digits-zero n (suc a / 2) (b / 2) (omega arith) (omega arith) in
    let low = differ-eq-zero (suc a % 2) (b % 2) (omega arith) in omega arith

pub bit_xor-eq-zero : (a b : ℕ) → bit_xor a b ≡ 0 → a ≡ b
bit_xor-eq-zero a b e = xor_digits-zero a a b (omega arith) (sym (λ i. bit_xor-bitwise a b i) ∙ e)

xor_digits_self : (n a : ℕ) → a ≤ n → digits (λ y. y) differ n a a ≡ 0
xor_digits_self zero zero h = refl
xor_digits_self zero (suc a) h = absurd (omega arith)
xor_digits_self (suc n) zero h = refl
xor_digits_self (suc n) (suc a) h =
    omega (arith, xor_digits_self n (suc a / 2) (omega arith), differ_self (suc a % 2))

pub bit_xor_self : (a : ℕ) → bit_xor a a ≡ 0
bit_xor_self a = (λ i. bit_xor-bitwise a a i) ∙ xor_digits_self a a (omega arith)
