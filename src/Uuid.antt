-- ===== src/Uuid.antt =====
-- `UUID_PATTERN` and `requireId` of web/lib/route-helpers.ts.
pub mod Laws
use warder.Base.{
  ℕ, zero, suc, ◌≡◌, Bool, true, false, ◌&&◌, ◌||◌, not, Option, none, some, List, [], ◌∷◌, Text,
  lit, is_empty, leb, ◌==◌, if◌then◌else◌, str,
}
use warder.World.{M, pure, throw, Failure, core}

-- `[0-9a-f]` under the flag `i`.
unfoldable pub is_hex : ℕ → Bool
is_hex c = leb b'0' c && leb c b'9' || leb b'a' c && leb c b'f' || leb b'A' c && leb c b'F'

-- The text after `n` hexadecimal digits.
unfoldable pub after_hex : ℕ → Text → Option Text
unfolding is_hex
after_hex zero s = some s
after_hex (suc n) [] = none
after_hex (suc n) (c ∷ s) = elim (is_hex c) [ true ↦ after_hex n s | false ↦ none ]

unfoldable pub after_dash : Text → Option Text
after_dash [] = none
after_dash (c ∷ s) = if c == b'-' then some s else none

-- Groups of digits of these lengths with dashes between them, and the end.
unfoldable pub matches_groups : List ℕ → Text → Bool
unfolding after_hex after_dash
matches_groups [] s = false
matches_groups (n ∷ []) s = elim (after_hex n s) [ none ↦ false | some rest ↦ is_empty rest ]
matches_groups (n ∷ m ∷ ns) s = elim (after_hex n s) [
  | none ↦ false
  | some rest ↦ elim (after_dash rest) [ none ↦ false | some more ↦ matches_groups (m ∷ ns) more ]
]

unfoldable pub is_uuid : Text → Bool
unfolding matches_groups
is_uuid value = matches_groups (8 ∷ 4 ∷ 4 ∷ 4 ∷ 12 ∷ []) value

unfoldable pub require_id : Text → M Text
require_id value w = elim (is_uuid value) [
  | true ↦ pure value w
  | false ↦
      throw (core 404 (str (lit "not_found")) (str (lit "The resource was not found.")) none) w
]
