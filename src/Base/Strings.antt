-- ===== src/Base/Strings.antt =====
-- Text of the language: a string is the list of its UTF-16 code units, with the operations on
-- strings that the source calls.
use Prim.Native.Nat.{ℕ, ◌+◌, ◌-◌}
use Prim.Native.Char.{code}
use Prim.Native.String.{String}
use mathlib.Core.Path.{◌≡◌, refl, ap₂, subst}
use mathlib.Core.Bool.{Bool, true, false, ◌&&◌, ◌||◌}
use mathlib.Core.Logic.{◌↔◌}
use mathlib.Core.Option
use mathlib.Core.Option.{Option, none, some}
use mathlib.Core.List.{List, [], ◌∷◌, ◌++◌, map}
use native.Mathlib.Omega.{arith}
use warder.Base.Tests.{leb, ◌==◌, ==_iff, if◌then◌else◌, and_parts}

abbrev pub Text : Type 0
Text = List ℕ

-- A literal of the source. Its code points are its code units below U+10000.
unfoldable pub lit : String → Text
lit String.[] = []
lit (String.◌∷◌ c s) = code c ∷ lit s

unfoldable pub text_eq : Text → Text → Bool
text_eq [] [] = true
text_eq [] (y ∷ ys) = false
text_eq (x ∷ xs) [] = false
text_eq (x ∷ xs) (y ∷ ys) = x == y && text_eq xs ys

pub text_eq_refl : (s : Text) → text_eq s s ≡ true
unfolding text_eq
text_eq_refl [] = refl
text_eq_refl (x ∷ xs) = ground (arith, text_eq_refl xs)

text_eq_sound : (s t : Text) → text_eq s t ≡ true → s ≡ t
unfolding text_eq
text_eq_sound [] [] h = refl
text_eq_sound [] (y ∷ ys) h = cc
text_eq_sound (x ∷ xs) [] h = cc
text_eq_sound (x ∷ xs) (y ∷ ys) h =
    let (here, later) = and_parts (x == y) (text_eq xs ys) h in
    ap₂ (λ a as'. a ∷ as') ((==_iff x y).0 here) (text_eq_sound xs ys later)

pub text_eq_iff : (s t : Text) → (text_eq s t ≡ true) ↔ (s ≡ t)
text_eq_iff s t = (text_eq_sound s t, λ e. subst (λ u. text_eq s u ≡ true) e (text_eq_refl s))

unfoldable pub starts_with : Text → Text → Bool
starts_with s [] = true
starts_with [] (p ∷ ps) = false
starts_with (c ∷ s) (p ∷ ps) = c == p && starts_with s ps

-- The text behind a prefix.
unfoldable pub strip_prefix : Text → Text → Option Text
strip_prefix [] s = some s
strip_prefix (p ∷ ps) [] = none
strip_prefix (p ∷ ps) (c ∷ s) = elim (c == p) [ true ↦ strip_prefix ps s | false ↦ none ]

-- `s.indexOf(c)` for one code unit, split there: the text before it and the text after it.
unfoldable pub cut_at : ℕ → Text → Option (Text × Text)
cut_at c [] = none
cut_at c (d ∷ s) =
    if d == c then some ([], s) else Option.map (λ (p : Text × Text). (d ∷ p.0, p.1)) (cut_at c s)

-- What `trim` and `\s` take for white space: WhiteSpace and LineTerminator of ECMAScript.
unfoldable pub is_space : ℕ → Bool
is_space c =
    leb 9 c && leb c 13
    || c == 32
    || c == 0xa0
    || c == 0x1680
    || leb 0x2000 c && leb c 0x200a
    || c == 0x2028
    || c == 0x2029
    || c == 0x202f
    || c == 0x205f
    || c == 0x3000
    || c == 0xfeff

unfoldable pub trim_start : Text → Text
trim_start [] = []
trim_start (c ∷ s) = if is_space c then trim_start s else c ∷ s

-- Drop `c` if it is white space and nothing is kept after it.
unfoldable pub keep_unless_edge : ℕ → Text → Text
keep_unless_edge c [] = if is_space c then [] else c ∷ []
keep_unless_edge c (d ∷ s) = c ∷ d ∷ s

unfoldable pub trim_end : Text → Text
trim_end [] = []
trim_end (c ∷ s) = keep_unless_edge c (trim_end s)

-- `s.trim()`
unfoldable pub trim : Text → Text
unfolding trim_start trim_end keep_unless_edge is_space
trim s = trim_end (trim_start s)

-- `s.includes(p)`
unfoldable pub includes : Text → Text → Bool
unfolding starts_with
includes [] p = starts_with [] p
includes (c ∷ s) p = let later = includes s p in starts_with (c ∷ s) p || later

-- `toLowerCase` on ASCII; other code units stay.
unfoldable pub lower_unit : ℕ → ℕ
lower_unit c = if leb b'A' c && leb c b'Z' then c + 32 else c

unfoldable pub to_lower : Text → Text
unfolding lower_unit
to_lower s = map lower_unit s

-- `toUpperCase` on ASCII; other code units stay.
unfoldable pub upper_unit : ℕ → ℕ
upper_unit c = if leb b'a' c && leb c b'z' then c - 32 else c

unfoldable pub to_upper : Text → Text
unfolding upper_unit
to_upper s = map upper_unit s

-- Membership in a constant set of texts: `new Set([…]).has(s)`.
unfoldable pub one_of : List Text → Text → Bool
unfolding text_eq
one_of [] s = false
one_of (t ∷ ts) s = text_eq t s || one_of ts s

unfoldable pub is_empty {ℓ} : {A : Type ℓ} → List A → Bool
is_empty [] = true
is_empty (x ∷ xs) = false

pub strip_prefix-append : (p s : Text) → strip_prefix p (p ++ s) ≡ some s
unfolding strip_prefix
strip_prefix-append [] s = refl
strip_prefix-append (c ∷ p) s =
    let same : (c == c) ≡ true = ground arith in rw (same, strip_prefix) (strip_prefix-append p s)
