-- ===== src/Session/Hex.antt =====
-- The hexadecimal text of random bytes keeps all of them.
use warder.Base.{ℕ, ◌*◌, ◌/◌, ◌%◌, ◌<◌, ◌≡◌, refl, ap₂, arith, List, [], ◌∷◌, Text, length, All}
use warder.Session.{hex_unit, hex_text}

hex_unit-injective : (a b : ℕ) → a < 16 → b < 16 → hex_unit a ≡ hex_unit b → a ≡ b
unfolding hex_unit
hex_unit-injective a b ha hb h = ground arith

tail_path : {a b : ℕ} {s t : Text} → ◌≡◌ {A = Text} (a ∷ s) (b ∷ t) → (a ≡ b) × (s ≡ t)
tail_path h = (cc, cc)

length-hex_text : (bytes : List ℕ) → length (hex_text bytes) ≡ 2 * length bytes
unfolding hex_text
length-hex_text [] = refl
length-hex_text (b ∷ bytes) = omega (arith, length-hex_text bytes)

hex_text-same :
    (xs ys : List ℕ)
    → All (λ b. b < 256) xs
    → All (λ b. b < 256) ys
    → hex_text xs ≡ hex_text ys
    → xs ≡ ys
unfolding hex_text
hex_text-same [] [] hx hy h = refl
hex_text-same [] (y ∷ ys) hx hy h = cc
hex_text-same (x ∷ xs) [] hx hy h = cc
hex_text-same (x ∷ xs) (y ∷ ys) (px, hx) (py, hy) h =
    let (high, rest) = tail_path h in
    let (low, more) = tail_path rest in
    let same_high = hex_unit-injective (x / 16) (y / 16) (omega arith) (omega arith) high in
    let same_low = hex_unit-injective (x % 16) (y % 16) (omega arith) (omega arith) low in
    let same : x ≡ y = omega arith in ap₂ (λ c s. c ∷ s) same (hex_text-same xs ys hx hy more)

-- Different draws of random bytes give different tokens, and a token has two units for each byte: its
-- text loses no randomness.
pub hex_text-injective :
    (xs ys : List ℕ)
    → All (λ b. b < 256) xs
    → All (λ b. b < 256) ys
    → hex_text xs ≡ hex_text ys
    → (xs ≡ ys) × (length (hex_text xs) ≡ 2 * length xs)
hex_text-injective xs ys hx hy h = (hex_text-same xs ys hx hy h, length-hex_text xs)
