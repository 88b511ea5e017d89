-- ===== src/Csrf/Timing.antt =====
-- The comparison of tokens is equality of texts.
use Prim.Native.Nat.{bit_or, bit_xor}
use warder.Base.{
  ℕ, ◌≡◌, ◌↔◌, refl, subst, arith, true, [], ◌∷◌, Text, length, ◌==◌, ==_iff, Bool-cases,
  bit_or-eq-zero, bit_xor-eq-zero, bit_xor_self, ap₂, inl, inr,
}
use warder.Csrf.{difference, timing_safe_equal}

-- A difference once noted stays.
difference-eq-zero :
    (acc : ℕ) (a b : Text) → length a ≡ length b → difference acc a b ≡ 0 → (acc ≡ 0) × (a ≡ b)
unfolding difference
difference-eq-zero acc [] [] same e = (e, refl)
difference-eq-zero acc [] (y ∷ b) same e = absurd (omega arith)
difference-eq-zero acc (x ∷ a) [] same e = absurd (omega arith)
difference-eq-zero acc (x ∷ a) (y ∷ b) same e =
    let (noted, rest) = difference-eq-zero (bit_or acc (bit_xor x y)) a b (omega arith) e in
    let (before, here) = bit_or-eq-zero acc (bit_xor x y) noted in
    (before, ap₂ (λ c s. c ∷ s) (bit_xor-eq-zero x y here) rest)

difference_self : (a : Text) → difference 0 a a ≡ 0
unfolding difference
difference_self [] = refl
difference_self (x ∷ a) = rw (bit_xor_self x) (difference_self a)

timing_safe_equal_self : (a : Text) → timing_safe_equal a a ≡ true
unfolding timing_safe_equal
timing_safe_equal_self a = ground (arith, difference_self a)

timing_safe_equal_sound : (a b : Text) → timing_safe_equal a b ≡ true → a ≡ b
unfolding timing_safe_equal
timing_safe_equal_sound a b h = elim (Bool-cases (length a == length b)) [
  | inl e ↦ (difference-eq-zero 0 a b ((==_iff _ _).0 e) (ground arith)).1
  | inr e ↦ ground arith
]

-- `timingSafeEqual` answers true exactly on equal texts: the bitwise loop misses no difference.
pub timing_safe_equal_iff : (a b : Text) → (timing_safe_equal a b ≡ true) ↔ (a ≡ b)
timing_safe_equal_iff a b = (
  timing_safe_equal_sound a b,
  λ e. subst (λ s. timing_safe_equal a s ≡ true) e (timing_safe_equal_self a),
)
