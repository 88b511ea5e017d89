-- ===== src/WebAuthn/RoundTrip.antt =====
-- Reading back what `toBase64Url` writes.
use warder.Base.{
  ℕ, suc, ◌+◌, ◌-◌, ◌*◌, ◌/◌, ◌%◌, ◌<◌, ◌≡◌, ◌≢◌, refl, ◌∙◌, arith, false, some, List, [], ◌∷◌,
  ◌++◌, map, replicate, length, All, Text, ◌==◌,
}
use warder.WebAuthn.{
  base64_unit, base64_value, btoa, atob_group, atob_three, atob_two, atob_last, atob, replace_unit,
  keep_unless_pad, drop_padding, pad_end, to_base64_url, from_base64_url,
}

-- The alphabet is read back, and no unit of it is the padding.
value-unit : (v : ℕ) → v < 64 → base64_value (base64_unit v) ≡ some v
unfolding base64_value base64_unit
value-unit v h = ground arith

unit-ne-pad : (v : ℕ) → (base64_unit v == b'=') ≡ false
unfolding base64_unit
unit-ne-pad v = ground arith

-- Both replacements together, and back.
to_url : ℕ → ℕ
unfolding replace_unit
to_url c = replace_unit b'/' b'_' (replace_unit b'+' b'-' c)

from_url-to_url :
    (v : ℕ)
    → replace_unit b'_' b'/' (replace_unit b'-' b'+' (to_url (base64_unit v))) ≡ base64_unit v
unfolding replace_unit to_url base64_unit
from_url-to_url v = ground arith

to_url-ne-pad : (v : ℕ) → (to_url (base64_unit v) == b'=') ≡ false
unfolding to_url base64_unit
to_url-ne-pad v = ground arith

-- `btoa` without its padding.
unpadded : List ℕ → Text
unpadded [] = []
unpadded (a ∷ []) = base64_unit (a / 4) ∷ base64_unit (a % 4 * 16) ∷ []
unpadded (a ∷ b ∷ []) =
    base64_unit (a / 4) ∷ base64_unit (a % 4 * 16 + b / 16) ∷ base64_unit (b % 16 * 4) ∷ []
unpadded (a ∷ b ∷ c ∷ bytes) =
    base64_unit (a / 4)
    ∷ base64_unit (a % 4 * 16 + b / 16)
    ∷ base64_unit (b % 16 * 4 + c / 64)
    ∷ base64_unit (c % 64)
    ∷ unpadded bytes

keep-ne-pad : (c : ℕ) (t : Text) → (c == b'=') ≡ false → keep_unless_pad c t ≡ c ∷ t
unfolding keep_unless_pad
keep-ne-pad c [] h = rw h
keep-ne-pad c (d ∷ t) h = refl

keep-unit :
    (v : ℕ) (t : Text)
    → keep_unless_pad (replace_unit b'/' b'_' (replace_unit b'+' b'-' (base64_unit v))) t
      ≡ replace_unit b'/' b'_' (replace_unit b'+' b'-' (base64_unit v)) ∷ t
keep-unit v t = keep-ne-pad _ t (unfold to_url in to_url-ne-pad v)

drop_padding-unit :
    (v : ℕ) (s : Text)
    → drop_padding (to_url (base64_unit v) ∷ s) ≡ to_url (base64_unit v) ∷ drop_padding s
unfolding drop_padding
drop_padding-unit v s = keep-ne-pad (to_url (base64_unit v)) (drop_padding s) (to_url-ne-pad v)

to_base64_url-unpadded : (bytes : List ℕ) → to_base64_url bytes ≡ map to_url (unpadded bytes)
unfolding to_base64_url btoa unpadded to_url
to_base64_url-unpadded [] = refl
to_base64_url-unpadded (a ∷ []) = simp drop_padding-unit
to_base64_url-unpadded (a ∷ b ∷ []) = simp drop_padding-unit
to_base64_url-unpadded (a ∷ b ∷ c ∷ bytes) = simp (to_base64_url-unpadded bytes, keep-unit)

map-from_url :
    (bytes : List ℕ)
    → map (replace_unit b'_' b'/') (map (replace_unit b'-' b'+') (map to_url (unpadded bytes)))
      ≡ unpadded bytes
unfolding unpadded
map-from_url [] = refl
map-from_url (a ∷ []) = simp from_url-to_url
map-from_url (a ∷ b ∷ []) = simp from_url-to_url
map-from_url (a ∷ b ∷ c ∷ bytes) = simp (from_url-to_url, map-from_url bytes)

padding-unpadded :
    (bytes : List ℕ)
    → unpadded bytes
        ++ replicate ((length (unpadded bytes) + 3) / 4 * 4 - length (unpadded bytes)) b'='
      ≡ btoa bytes
unfolding unpadded btoa
padding-unpadded [] = refl
padding-unpadded (a ∷ []) = refl
padding-unpadded (a ∷ b ∷ []) = refl
padding-unpadded (a ∷ b ∷ c ∷ bytes) =
    let n = length (unpadded bytes) in
    let same : (suc (suc (suc (suc n))) + 3) / 4 * 4 - suc (suc (suc (suc n)))
        ≡ (n + 3) / 4 * 4 - n =
      omega arith in
    rw (same, padding-unpadded bytes) refl

atob_group-units :
    (a b c : ℕ)
    → a < 256
    → b < 256
    → c < 256
    → atob_group
        (base64_unit (a / 4))
        (base64_unit (a % 4 * 16 + b / 16))
        (base64_unit (b % 16 * 4 + c / 64))
        (base64_unit (c % 64))
      ≡ some (a ∷ b ∷ c ∷ [])
unfolding atob_group
atob_group-units a b c ha hb hc =
    rw
      (
        value-unit (a / 4) (omega arith),
        value-unit (a % 4 * 16 + b / 16) (omega arith),
        value-unit (b % 16 * 4 + c / 64) (omega arith),
        value-unit (c % 64) (omega arith),
      )
      (ground arith)

atob_three-units :
    (a b : ℕ)
    → a < 256
    → b < 256
    → atob_three
        (base64_unit (a / 4))
        (base64_unit (a % 4 * 16 + b / 16))
        (base64_unit (b % 16 * 4))
      ≡ some (a ∷ b ∷ [])
unfolding atob_three
atob_three-units a b ha hb =
    rw
      (
        value-unit (a / 4) (omega arith),
        value-unit (a % 4 * 16 + b / 16) (omega arith),
        value-unit (b % 16 * 4) (omega arith),
      )
      (ground arith)

atob_two-units :
    (a : ℕ) → a < 256 → atob_two (base64_unit (a / 4)) (base64_unit (a % 4 * 16)) ≡ some (a ∷ [])
unfolding atob_two
atob_two-units a ha =
    rw (value-unit (a / 4) (omega arith), value-unit (a % 4 * 16) (omega arith)) (ground arith)

last_three : (p q v : ℕ) → atob_last p q (base64_unit v) b'=' ≡ atob_three p q (base64_unit v)
unfolding atob_last
last_three p q v = rw (unit-ne-pad v)

last_four :
    (p q v u : ℕ)
    → atob_last p q (base64_unit v) (base64_unit u) ≡ atob_group p q (base64_unit v) (base64_unit u)
unfolding atob_last
last_four p q v u = rw (unit-ne-pad v, unit-ne-pad u)

-- One group in front of a text that is not empty.
atob-group :
    (p q r s : ℕ) (text : Text) (first rest : List ℕ)
    → text ≢ []
    → atob_group p q r s ≡ some first
    → atob text ≡ some rest
    → atob (p ∷ q ∷ r ∷ s ∷ text) ≡ some (first ++ rest)
unfolding atob
atob-group p q r s [] first rest h f e = absurd (h refl)
atob-group p q r s (t ∷ text) first rest h f e = rw (f, e)

btoa-ne-nil : (d : ℕ) (bytes : List ℕ) → btoa (d ∷ bytes) ≢ []
unfolding btoa
btoa-ne-nil d [] h = cc
btoa-ne-nil d (e ∷ []) h = cc
btoa-ne-nil d (e ∷ f ∷ bytes) h = cc

abbrev pub IsBytes : List ℕ → Type 0
IsBytes = All (λ b. b < 256)

atob-last : (p q r s : ℕ) → atob (p ∷ q ∷ r ∷ s ∷ []) ≡ atob_last p q r s
unfolding atob
atob-last p q r s = refl

atob-nil : atob [] ≡ some []
unfolding atob
atob-nil = refl

last_two : (p q : ℕ) → atob_last p q b'=' b'=' ≡ atob_two p q
unfolding atob_last
last_two p q = refl

pub atob-btoa : (bytes : List ℕ) → IsBytes bytes → atob (btoa bytes) ≡ some bytes
unfolding btoa
atob-btoa [] _ = atob-nil
atob-btoa (a ∷ []) (ha, _) = atob-last _ _ _ _ ∙ (last_two _ _ ∙ atob_two-units a ha)
atob-btoa (a ∷ b ∷ []) (ha, (hb, _)) =
    atob-last _ _ _ _ ∙ (last_three _ _ (b % 16 * 4) ∙ atob_three-units a b ha hb)
atob-btoa (a ∷ b ∷ c ∷ []) (ha, (hb, (hc, _))) =
    atob-last _ _ _ _
    ∙ (last_four _ _ (b % 16 * 4 + c / 64) (c % 64) ∙ atob_group-units a b c ha hb hc)
atob-btoa (a ∷ b ∷ c ∷ d ∷ bytes) (ha, (hb, (hc, h))) =
    atob-group _ _ _ _ (btoa (d ∷ bytes)) _ _ (btoa-ne-nil d bytes)
      (atob_group-units a b c ha hb hc) (atob-btoa (d ∷ bytes) h)

-- Every sequence of bytes is read back from its base64url text, of whatever length.
pub from_base64_url-to_base64_url :
    (bytes : List ℕ) → IsBytes bytes → from_base64_url (to_base64_url bytes) ≡ some bytes
unfolding from_base64_url pad_end
from_base64_url-to_base64_url bytes h =
    rw (to_base64_url-unpadded bytes, map-from_url bytes, padding-unpadded bytes)
      (atob-btoa bytes h)
