-- ===== src/Base/Decimal.antt =====
-- The decimal text of a number in a template, and the reading of `\d+`.
use Prim.Native.Nat.{ℕ, zero, suc, ◌+◌, ◌-◌, ◌*◌, ◌/◌, ◌%◌, ◌<◌}
use mathlib.Core.Path.{◌≡◌, refl, ◌∙◌, ap}
use mathlib.Core.Bool.{Bool, true, false, ◌&&◌}
use mathlib.Core.Logic.{inl, inr}
use mathlib.Core.List.{[], ◌∷◌, ◌++◌}
use native.Mathlib.Omega.{arith}
use warder.Base.Tests.{leb, ltb, if◌then◌else◌, Bool-cases}
use warder.Base.Strings.{Text}

unfoldable pub is_digit : ℕ → Bool
is_digit c = leb b'0' c && leb c b'9'

-- One digit a round, the last one first; the fuel `suc n` is enough for `n`.
unfoldable pub digits_before : ℕ → ℕ → Text → Text
digits_before zero n out = out
digits_before (suc fuel) n out =
    let longer = digits_before fuel (n / 10) ((b'0' + n % 10) ∷ out) in
    if ltb n 10 then (b'0' + n) ∷ out else longer

-- `${n}`
unfoldable pub number_text : ℕ → Text
unfolding digits_before
number_text n = digits_before (suc n) n []

-- The number that the digits at the front go on to spell after `n`, and the text behind them.
unfoldable pub read_digits : ℕ → Text → ℕ × Text
unfolding is_digit
read_digits n [] = (n, [])
read_digits n (c ∷ s) =
    let more = read_digits (n * 10 + (c - b'0')) s in if is_digit c then more else (n, c ∷ s)

read-digit :
    (n d : ℕ) (out : Text)
    → d < 10
    → read_digits n ((b'0' + d) ∷ out) ≡ read_digits (n * 10 + d) out
unfolding read_digits
read-digit n d out h =
    let digit : (leb b'0' (b'0' + d) && leb (b'0' + d) b'9') ≡ true = ground arith in
    let same : b'0' + d - b'0' ≡ d = omega arith in rw (digit, same) refl

read_digits-before :
    (fuel n : ℕ) (out : Text)
    → n < fuel
    → read_digits 0 (digits_before fuel n out) ≡ read_digits n out
unfolding digits_before
read_digits-before zero n out h = absurd (omega arith)
read_digits-before (suc fuel) n out h = elim (Bool-cases (ltb n 10)) [
  | inl e ↦
      let same : 0 * 10 + n ≡ n = omega arith in
      rw e (read-digit 0 n out (ground arith) ∙ ap (λ m. read_digits m out) same)
  | inr e ↦
      let big : 9 < n = ground arith in
      let whole : n / 10 * 10 + n % 10 ≡ n = omega arith in
      rw e (
        read_digits-before fuel (n / 10) ((b'0' + n % 10) ∷ out) (omega arith)
        ∙ (read-digit (n / 10) (n % 10) out (omega arith) ∙ ap (λ m. read_digits m out) whole))
]

-- The decimal text before `out` is read back as the number, and reading goes on behind it.
pub read_digits-number :
    (n : ℕ) (out : Text) → read_digits 0 (digits_before (suc n) n out) ≡ read_digits n out
read_digits-number n out = read_digits-before (suc n) n out (omega arith)

-- It starts with a digit.
abbrev pub StartsDigit : Text → Type 0
StartsDigit [] = ⊥
StartsDigit (c ∷ s) = is_digit c ≡ true

digits_before-StartsDigit :
    (fuel n : ℕ) (out : Text) → n < fuel → StartsDigit (digits_before fuel n out)
unfolding digits_before is_digit
digits_before-StartsDigit zero n out h = absurd (omega arith)
digits_before-StartsDigit (suc fuel) n out h = elim (Bool-cases (ltb n 10)) [
  | inl e ↦ rw e (ground arith)
  | inr e ↦
      let big : 9 < n = ground arith in
      rw e (digits_before-StartsDigit fuel (n / 10) ((b'0' + n % 10) ∷ out) (omega arith))
]

pub number-StartsDigit : (n : ℕ) (out : Text) → StartsDigit (digits_before (suc n) n out)
number-StartsDigit n out = digits_before-StartsDigit (suc n) n out (omega arith)

digits_before-append :
    (fuel n : ℕ) (out rest : Text)
    → digits_before fuel n (out ++ rest) ≡ digits_before fuel n out ++ rest
unfolding digits_before
digits_before-append zero n out rest = refl
digits_before-append (suc fuel) n out rest = elim (Bool-cases (ltb n 10)) [
  | inl e ↦ rw e refl
  | inr e ↦ rw e (digits_before-append fuel (n / 10) ((b'0' + n % 10) ∷ out) rest)
]

pub number_text-append :
    (n : ℕ) (rest : Text) → digits_before (suc n) n rest ≡ number_text n ++ rest
unfolding number_text
number_text-append n rest = digits_before-append (suc n) n [] rest

-- The number's own text, with anything but a digit behind it, is read as the number.
pub read_digits-text :
    (n c : ℕ) (rest : Text)
    → is_digit c ≡ false
    → read_digits 0 (number_text n ++ c ∷ rest) ≡ (n, c ∷ rest)
unfolding read_digits
read_digits-text n c rest stop =
    rw (← number_text-append n (c ∷ rest), read_digits-number n (c ∷ rest), stop) refl

pub text-StartsDigit : (n : ℕ) (rest : Text) → StartsDigit (number_text n ++ rest)
text-StartsDigit n rest = rw (← number_text-append n rest) (number-StartsDigit n rest)
