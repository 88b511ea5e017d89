-- ===== src/Base/Uri.antt =====
-- `decodeURIComponent`: percent escapes spell UTF-8, which is read back as UTF-16 code units.
-- `none` is the `URIError` that it throws.
use Prim.Native.Nat.{ℕ, zero, suc, ◌+◌, ◌-◌, ◌*◌, ◌/◌, ◌%◌}
use mathlib.Core.Path.{◌≡◌, refl}
use mathlib.Core.Bool.{Bool, false, ◌&&◌, ◌||◌, not}
use mathlib.Core.Option
use mathlib.Core.Option.{Option, none, some}
use mathlib.Core.List.{List, [], ◌∷◌, ◌++◌, map}
use warder.Base.Tests.{leb, ltb, ◌==◌, if◌then◌else◌}
use warder.Base.Lists.{All}
use warder.Base.Strings.{Text, lit}

pub hex_digit : ℕ → Option ℕ
hex_digit c =
    if leb b'0' c && leb c b'9'
    then some (c - b'0')
    else if leb b'a' c && leb c b'f'
    then some (c - b'a' + 10)
    else if leb b'A' c && leb c b'F'
    then some (c - b'A' + 10)
    else none

-- One unit of the text, or the byte of an escape.
pub data Piece : Type 0 where
  plain byte : ℕ → Piece

infixl 5 ◌>>=◌
abbrev ◌>>=◌ {ℓ κ} : {A : Type ℓ} {B : Type κ} → Option A → (A → Option B) → Option B
none >>= f = none
some a >>= f = f a

pieces : Text → Option (List Piece)
unfolding hex_digit
pieces [] = some []
pieces (c ∷ []) = if c == b'%' then none else some (plain c ∷ [])
pieces (c ∷ d ∷ []) = if c == b'%' then none else Option.map (λ ps. plain c ∷ ps) (pieces (d ∷ []))
pieces (c ∷ d ∷ e ∷ s) =
    let escaped : Option (List Piece) = do
      high ← hex_digit d
      low ← hex_digit e
      rest ← pieces s
      some (byte (high * 16 + low) ∷ rest)
    in let copied = Option.map (λ ps. plain c ∷ ps) (pieces (d ∷ e ∷ s)) in
      if c == b'%' then escaped else copied

utf16 : ℕ → Text
utf16 n =
    if ltb n 0x10000
    then n ∷ []
    else (0xd800 + (n - 0x10000) / 0x400) ∷ (0xdc00 + (n - 0x10000) % 0x400) ∷ []

-- A code point that UTF-8 may spell with this many bytes: no shorter spelling, no surrogate.
is_code_point : ℕ → ℕ → Bool
is_code_point least n = leb least n && leb n 0x10ffff && not (leb 0xd800 n && leb n 0xdfff)

-- `need` bytes are missing of a code point whose bits so far are `bits`.
join_bytes : ℕ → ℕ → ℕ → List Piece → Option Text
unfolding utf16 is_code_point
join_bytes zero bits least [] = some []
join_bytes (suc need) bits least [] = none
join_bytes zero bits least (plain c ∷ ps) = Option.map (λ s. c ∷ s) (join_bytes 0 0 0 ps)
join_bytes (suc need) bits least (plain c ∷ ps) = none
join_bytes zero bits least (byte b ∷ ps) =
    let one = Option.map (λ s. b ∷ s) (join_bytes 0 0 0 ps) in
    let two = join_bytes 1 (b - 0xc0) 0x80 ps in
    let three = join_bytes 2 (b - 0xe0) 0x800 ps in
    let four = join_bytes 3 (b - 0xf0) 0x10000 ps in
    if ltb b 0x80
    then one
    else if ltb b 0xc2 || ltb 0xf4 b
    then none
    else if ltb b 0xe0
    then two
    else if ltb b 0xf0
    then three
    else four
join_bytes (suc need) bits least (byte b ∷ ps) =
    let n = bits * 64 + (b - 0x80) in
    let done = Option.map (λ s. utf16 n ++ s) (join_bytes 0 0 0 ps) in
    let more = join_bytes need n least ps in
    if ltb b 0x80 || ltb 0xbf b
    then none
    else if need == 0
    then (if is_code_point least n then done else none)
    else more

unfoldable pub decode_uri_component : Text → Option Text
unfolding pieces join_bytes
decode_uri_component s = pieces s >>= join_bytes 0 0 0

pieces-plain : (s : Text) → All (λ c. (c == b'%') ≡ false) s → pieces s ≡ some (map plain s)
unfolding pieces
pieces-plain [] _ = refl
pieces-plain (c ∷ []) h = rw h.0
pieces-plain (c ∷ d ∷ []) h = rw (h.0, pieces-plain (d ∷ []) h.1)
pieces-plain (c ∷ d ∷ e ∷ s) h = rw (h.0, pieces-plain (d ∷ e ∷ s) h.1)

join_bytes-plain : (s : Text) → join_bytes 0 0 0 (map plain s) ≡ some s
unfolding join_bytes
join_bytes-plain [] = refl
join_bytes-plain (c ∷ s) = rw (join_bytes-plain s)

-- A text with no `%` is its own decoding.
pub decode-plain : (s : Text) → All (λ c. (c == b'%') ≡ false) s → decode_uri_component s ≡ some s
unfolding decode_uri_component
decode-plain s h = rw (pieces-plain s h) (join_bytes-plain s)

-- One unit of two bytes, a surrogate pair of four, and a text that is refused for its missing byte.
decode_tests :
    (decode_uri_component (lit "a%C3%A9b") ≡ some (b'a' ∷ 0xe9 ∷ b'b' ∷ []))
    × (decode_uri_component (lit "%F0%9F%98%80") ≡ some (0xd83d ∷ 0xde00 ∷ []))
    × (decode_uri_component (lit "%C3") ≡ none)
    × (decode_uri_component (lit "100%") ≡ none)
unfolding decode_uri_component lit
decode_tests = (refl, refl, refl, refl)
