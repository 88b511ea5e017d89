-- ===== src/WebAuthn.antt =====
-- web/lib/webauthn.ts: the conversion between bytes and base64url text, with `btoa` and `atob` of
-- the platform as the HTML standard defines them.
pub mod RoundTrip
use mathlib.Core.Option
use warder.Base.{
  ℕ, zero, suc, ◌+◌, ◌-◌, ◌*◌, ◌/◌, ◌%◌, ◌≡◌, Bool, true, false, ◌&&◌, ◌||◌, Option, none, some,
  List, [], ◌∷◌, ◌++◌, map, replicate, length, Text, leb, ltb, ◌==◌, if◌then◌else◌,
}

-- The alphabet of base64: the code unit of a value below 64.
unfoldable pub base64_unit : ℕ → ℕ
base64_unit v =
    if ltb v 26
    then b'A' + v
    else if ltb v 52
    then b'a' + (v - 26)
    else if ltb v 62
    then b'0' + (v - 52)
    else if v == 62
    then b'+'
    else b'/'

unfoldable pub base64_value : ℕ → Option ℕ
base64_value c =
    if leb b'A' c && leb c b'Z'
    then some (c - b'A')
    else if leb b'a' c && leb c b'z'
    then some (c - b'a' + 26)
    else if leb b'0' c && leb c b'9'
    then some (c - b'0' + 52)
    else if c == b'+'
    then some 62
    else if c == b'/'
    then some 63
    else none

-- `btoa` of a text of bytes.
unfoldable pub btoa : List ℕ → Text
unfolding base64_unit
btoa [] = []
btoa (a ∷ []) = base64_unit (a / 4) ∷ base64_unit (a % 4 * 16) ∷ b'=' ∷ b'=' ∷ []
btoa (a ∷ b ∷ []) =
    base64_unit (a / 4) ∷ base64_unit (a % 4 * 16 + b / 16) ∷ base64_unit (b % 16 * 4) ∷ b'=' ∷ []
btoa (a ∷ b ∷ c ∷ bytes) =
    base64_unit (a / 4)
    ∷ base64_unit (a % 4 * 16 + b / 16)
    ∷ base64_unit (b % 16 * 4 + c / 64)
    ∷ base64_unit (c % 64)
    ∷ btoa bytes

infixl 5 ◌>>=◌
abbrev ◌>>=◌ {ℓ κ} : {A : Type ℓ} {B : Type κ} → Option A → (A → Option B) → Option B
none >>= f = none
some a >>= f = f a

-- Four units with no padding, with one unit of it, and with two.
unfoldable pub atob_group : ℕ → ℕ → ℕ → ℕ → Option (List ℕ)
unfolding base64_value
atob_group p q r s = do
  u ← base64_value p
  v ← base64_value q
  w ← base64_value r
  x ← base64_value s
  some ((u * 4 + v / 16) ∷ (v % 16 * 16 + w / 4) ∷ (w % 4 * 64 + x) ∷ [])

unfoldable pub atob_three : ℕ → ℕ → ℕ → Option (List ℕ)
unfolding base64_value
atob_three p q r = do
  u ← base64_value p
  v ← base64_value q
  w ← base64_value r
  some ((u * 4 + v / 16) ∷ (v % 16 * 16 + w / 4) ∷ [])

unfoldable pub atob_two : ℕ → ℕ → Option (List ℕ)
unfolding base64_value
atob_two p q = do u ← base64_value p; v ← base64_value q; some ((u * 4 + v / 16) ∷ [])

-- The last four units.
unfoldable pub atob_last : ℕ → ℕ → ℕ → ℕ → Option (List ℕ)
unfolding atob_group atob_three atob_two
atob_last p q r s =
    if r == b'=' && s == b'='
    then atob_two p q
    else if s == b'='
    then atob_three p q r
    else atob_group p q r s

-- `atob` of a text whose length is a multiple of four and that holds no white space, which is what
-- `fromBase64Url` hands it unless the caller's text holds some. `none` is the exception.
unfoldable pub atob : Text → Option (List ℕ)
unfolding atob_last atob_group
atob [] = some []
atob (p ∷ []) = none
atob (p ∷ q ∷ []) = none
atob (p ∷ q ∷ r ∷ []) = none
atob (p ∷ q ∷ r ∷ s ∷ []) = atob_last p q r s
atob (p ∷ q ∷ r ∷ s ∷ t ∷ text) = do
  first ← atob_group p q r s
  rest ← atob (t ∷ text)
  some (first ++ rest)

-- `.replace(/x/g, y)` for one unit.
unfoldable pub replace_unit : ℕ → ℕ → ℕ → ℕ
replace_unit x y c = if c == x then y else c

-- `.replace(/=+$/, "")`
unfoldable pub keep_unless_pad : ℕ → Text → Text
keep_unless_pad c [] = if c == b'=' then [] else c ∷ []
keep_unless_pad c (d ∷ s) = c ∷ d ∷ s

unfoldable pub drop_padding : Text → Text
unfolding keep_unless_pad
drop_padding [] = []
drop_padding (c ∷ s) = keep_unless_pad c (drop_padding s)

-- `s.padEnd(n, "=")`
unfoldable pub pad_end : ℕ → Text → Text
pad_end n s = s ++ replicate (n - length s) b'='

unfoldable pub to_base64_url : List ℕ → Text
unfolding btoa replace_unit drop_padding
to_base64_url bytes =
    drop_padding (map (replace_unit b'/' b'_') (map (replace_unit b'+' b'-') (btoa bytes)))

unfoldable pub from_base64_url : Text → Option (List ℕ)
unfolding atob replace_unit pad_end
from_base64_url value =
    let padded = map (replace_unit b'_' b'/') (map (replace_unit b'-' b'+') value) in
    atob (pad_end ((length padded + 3) / 4 * 4) padded)
