-- ===== src/Uuid/Laws.antt =====
-- An identifier that passes `requireId` cannot leave its place in a path.
use warder.Base.{
  ℕ, zero, suc, ◌≡◌, ◌↔◌, ◌⊎◌, inl, inr, refl, ap, ◌∙◌, arith, true, some, List, [], ◌∷◌, ◌++◌,
  append-nil, Text, is_empty, length, All, All-append, All-map, Option-cases, Bool-cases,
}
use warder.Uuid.{is_hex, after_hex, after_dash, matches_groups, is_uuid, require_id}
use warder.World.{World, ok}

-- A hexadecimal digit or a dash.
abbrev pub IsIdUnit : ℕ → Type 0
IsIdUnit c = (is_hex c ≡ true) ⊎ (c ≡ b'-')

abbrev pub AllHex : Text → Type 0
AllHex = All (λ c. is_hex c ≡ true)

-- Groups of so many digits each, with a dash between two groups.
abbrev pub Spells : List ℕ → Text → Type 0
Spells [] s = ⊥
Spells (n ∷ []) s = AllHex s × (length s ≡ n)
Spells (n ∷ m ∷ ns) s =
    (p : Text) × (rest : Text) × (s ≡ p ++ b'-' ∷ rest)
    × AllHex p
    × (length p ≡ n)
    × Spells (m ∷ ns) rest

abbrev Leaves : ℕ → Text → Text → Type 0
Leaves n s rest = (p : Text) × (s ≡ p ++ rest) × AllHex p × (length p ≡ n)

after_hex_cons :
    (n c : ℕ) (s rest : Text)
    → after_hex (suc n) (c ∷ s) ≡ some rest
    → (is_hex c ≡ true) × (after_hex n s ≡ some rest)
unfolding after_hex
after_hex_cons n c s rest h = elim (Bool-cases (is_hex c)) [
  | inl e ↦ (e, ground arith)
  | inr e ↦ absurd (ground arith)
]

after_hex_sound : (n : ℕ) (s rest : Text) → after_hex n s ≡ some rest → Leaves n s rest
after_hex_sound zero s rest h = ([], unfold after_hex in cc, tt, refl)
after_hex_sound (suc n) [] rest h = unfold after_hex in cc
after_hex_sound (suc n) (c ∷ s) rest h =
    let (hex, more) = after_hex_cons n c s rest h in
    let (p, e, digits, long) = after_hex_sound n s rest more in
    (c ∷ p, ap (λ (t : Text). c ∷ t) e, (hex, digits), ap suc long)

after_hex_complete : (p rest : Text) → AllHex p → after_hex (length p) (p ++ rest) ≡ some rest
unfolding after_hex
after_hex_complete [] rest h = refl
after_hex_complete (c ∷ p) rest (hex, digits) =
    rw (hex, after_hex) (after_hex_complete p rest digits)

after_dash_sound : (s rest : Text) → after_dash s ≡ some rest → s ≡ b'-' ∷ rest
unfolding after_dash
after_dash_sound [] rest h = cc
after_dash_sound (c ∷ s) rest h = ground arith

empty : (s : Text) → is_empty s ≡ true → s ≡ []
unfolding is_empty
empty [] h = refl
empty (c ∷ s) h = cc

group_sound : (n : ℕ) (s : Text) → matches_groups (n ∷ []) s ≡ true → AllHex s × (length s ≡ n)
unfolding matches_groups
group_sound n s h = elim (Option-cases (after_hex n s)) [
  | inl e ↦ absurd (ground arith)
  | inr (rest, e) ↦ last rest (after_hex_sound n s rest e) (empty rest (ground arith))
]
  where
    last : (rest : Text) → Leaves n s rest → rest ≡ [] → AllHex s × (length s ≡ n)
    last rest (p, e, digits, long) none_left =
        let same : s ≡ p = e ∙ (ap (λ t. p ++ t) none_left ∙ append-nil p) in
        (rw same digits, rw same long)

-- What a further group says of the text before it.
next_group :
    (n m : ℕ) (ns : List ℕ) (s : Text)
    → matches_groups (n ∷ m ∷ ns) s ≡ true
    → (rest : Text) × (more : Text) × (after_hex n s ≡ some rest)
      × (after_dash rest ≡ some more)
      × (matches_groups (m ∷ ns) more ≡ true)
unfolding matches_groups
next_group n m ns s h = elim (Option-cases (after_hex n s)) [
  | inl e ↦ absurd (ground arith)
  | inr (rest, e) ↦ elim (Option-cases (after_dash rest)) [
    | inl d ↦ absurd (ground arith)
    | inr (more, d) ↦ (rest, more, e, d, ground arith)
  ]
]

groups_sound : (ns : List ℕ) (s : Text) → matches_groups ns s ≡ true → Spells ns s
groups_sound [] s h = unfold matches_groups in cc
groups_sound (n ∷ []) s h = group_sound n s h
groups_sound (n ∷ m ∷ ns) s h =
    let (rest, more, after, dash, matches) = next_group n m ns s h in
    let (p, e, digits, long) = after_hex_sound n s rest after in
    (
      p,
      more,
      e ∙ ap (λ t. p ++ t) (after_dash_sound rest more dash),
      digits,
      long,
      groups_sound (m ∷ ns) more matches,
    )

last_group : (n : ℕ) (s : Text) → after_hex n s ≡ some [] → matches_groups (n ∷ []) s ≡ true
unfolding matches_groups is_empty
last_group n s e = ground (arith, e)

first_group :
    (n m : ℕ) (ns : List ℕ) (s rest : Text)
    → after_hex n s ≡ some (b'-' ∷ rest)
    → matches_groups (n ∷ m ∷ ns) s ≡ matches_groups (m ∷ ns) rest
unfolding matches_groups
first_group n m ns s rest e = ground (arith, e)

groups_complete : (ns : List ℕ) (s : Text) → Spells ns s → matches_groups ns s ≡ true
groups_complete [] s h = absurd h
groups_complete (n ∷ []) s (digits, long) =
    let whole : after_hex n (s ++ []) ≡ some [] = rw (← long) (after_hex_complete s [] digits) in
    last_group n s (rw append-nil at whole)
groups_complete (n ∷ m ∷ ns) s (p, rest, e, digits, long, h) =
    let taken : after_hex n (p ++ b'-' ∷ rest) ≡ some (b'-' ∷ rest) =
      rw (← long) (after_hex_complete p (b'-' ∷ rest) digits) in
    first_group n m ns s rest (rw e taken) ∙ groups_complete (m ∷ ns) rest h

-- The pattern accepts exactly the texts of 8, 4, 4, 4 and 12 hexadecimal digits with dashes between.
pub is_uuid_iff : (s : Text) → (is_uuid s ≡ true) ↔ Spells (8 ∷ 4 ∷ 4 ∷ 4 ∷ 12 ∷ []) s
unfolding is_uuid
is_uuid_iff s =
    (groups_sound (8 ∷ 4 ∷ 4 ∷ 4 ∷ 12 ∷ []) s, groups_complete (8 ∷ 4 ∷ 4 ∷ 4 ∷ 12 ∷ []) s)

hex-IsIdUnit : (s : Text) → AllHex s → All IsIdUnit s
hex-IsIdUnit s h = All-map (λ c. is_hex c ≡ true) IsIdUnit s (λ c e. inl e) h

Spells-IsIdUnit : (ns : List ℕ) (s : Text) → Spells ns s → All IsIdUnit s
Spells-IsIdUnit [] s h = absurd h
Spells-IsIdUnit (n ∷ []) s (digits, long) = hex-IsIdUnit s digits
Spells-IsIdUnit (n ∷ m ∷ ns) s (p, rest, e, digits, long, h) = rw e (
    All-append IsIdUnit p (b'-' ∷ rest) (hex-IsIdUnit p digits)
      (inr refl, Spells-IsIdUnit (m ∷ ns) rest h))

require_id-is_uuid :
    (value id : Text) (w w' : World)
    → require_id value w ≡ ok id w'
    → (is_uuid value ≡ true) × (id ≡ value) × (w' ≡ w)
unfolding require_id
require_id-is_uuid value id w w' h = ground arith

-- What `requireId` lets through is the segment itself, of hexadecimal digits and dashes alone. It holds
-- no `/`, `.`, `?`, `#` or `%`, so it names one segment of the core API's path and nothing else.
pub require_id_safe :
    (value id : Text) (w w' : World)
    → require_id value w ≡ ok id w'
    → (id ≡ value) × (w' ≡ w) × All IsIdUnit id
require_id_safe value id w w' h =
    let (match, same, stays) = require_id-is_uuid value id w w' h in
    (
      same,
      stays,
      rw same (Spells-IsIdUnit (8 ∷ 4 ∷ 4 ∷ 4 ∷ 12 ∷ []) value ((is_uuid_iff value).0 match)),
    )
