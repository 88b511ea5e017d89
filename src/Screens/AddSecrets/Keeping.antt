-- ===== src/Screens/AddSecrets/Keeping.antt =====
-- Which rows of the dialog stay when a file is pasted, and which are made of its entries.
use warder.Base.{
  ◌∙◌, ap, and_parts, text_eq, text_eq_iff, text_eq_refl, ℕ, zero, suc, ◌+◌, ◌≡◌, refl, sym, arith,
  inl, inr, true, false, not, ◌&&◌, ◌||◌, Bool-cases, some, List, [], ◌∷◌, Text, is_empty, trim,
  to_upper, one_of, get_elem?, ◌==◌, All, Holds, Holds-cons, Holds-self, Holds-cases,
}
use warder.Dotenv.{ParsedEntry}
use warder.Screens.AddSecrets.Merge.{kept_rows, upper_keys, added_rows}
use warder.Screens.AddSecrets.{Row, new_row}

-- Something stands in the row.
abbrev pub IsTyped : Row → Type 0
IsTyped row = (not (is_empty (trim row.key)) || not (is_empty row.value)) ≡ true

pub kept-Holds :
    (at index i : ℕ) (rows : List Row) (row : Row)
    → get_elem? rows i ≡ some row
    → (index + i == at) ≡ false
    → IsTyped row
    → Holds (kept_rows at index rows) row
unfolding kept_rows
kept-Holds at index i [] row e other typed = cc
kept-Holds at index zero (r ∷ rows) row e other typed =
    let same : r ≡ row = cc in
    let elsewhere : (index == at) ≡ false = ground arith in
    rw (same, elsewhere, typed) (Holds-self row (kept_rows at (index + 1) rows) row refl)
kept-Holds at index (suc i) (r ∷ rows) row e other typed =
    let rest = kept-Holds at (index + 1) i rows row e (ground arith) typed in
    elim (Bool-cases
      (not (index == at) && (not (is_empty (trim r.key)) || not (is_empty r.value)))) [
        | inl k ↦ rw k (Holds-cons r (kept_rows at (index + 1) rows) row rest)
        | inr k ↦ rw k rest
      ]

-- A row with the key and the value of an entry.
abbrev pub HoldsEntry : List Row → ParsedEntry → Type 0
HoldsEntry rows e = (id : ℕ) × Holds rows (new_row id e.key e.value)

pub added-HoldsEntry :
    (existing : List Text) (next : ℕ) (entries : List ParsedEntry) (e : ParsedEntry)
    → Holds entries e
    → one_of existing (to_upper e.key) ≡ false
    → HoldsEntry (added_rows existing next entries) e
unfolding added_rows
added-HoldsEntry existing next [] e ([], after, h) fresh = cc
added-HoldsEntry existing next [] e (b ∷ before, after, h) fresh = cc
added-HoldsEntry existing next (x ∷ entries) e held fresh = elim (Holds-cases x entries e held) [
  | inl same ↦
      rw (← same, fresh) (next, Holds-self _ (added_rows existing (next + 1) entries) _ refl)
  | inr later ↦ elim (Bool-cases (one_of existing (to_upper x.key))) [
    | inl k ↦ rw k (added-HoldsEntry existing next entries e later fresh)
    | inr k ↦
        let (id, h) = added-HoldsEntry existing (next + 1) entries e later fresh in
        rw k (id, Holds-cons _ (added_rows existing (next + 1) entries) _ h)
  ]
]

-- A row that stays: it is not the one pasted into, and something stands in it.
abbrev pub Stays : ℕ → List Row → Row → Type 0
Stays at rows row = (i : ℕ) × (get_elem? rows i ≡ some row) × ((i == at) ≡ false) × IsTyped row

-- A row that stays has this key, in capitals.
abbrev pub IsTaken : ℕ → List Row → Text → Type 0
IsTaken at rows key = (row : Row) × Stays at rows row × (to_upper (trim row.key) ≡ key)

pub kept-origin :
    (at index : ℕ) (rows : List Row) (row : Row)
    → Holds (kept_rows at index rows) row
    → (i : ℕ) × (get_elem? rows i ≡ some row) × ((index + i == at) ≡ false) × IsTyped row
unfolding kept_rows
kept-origin at index [] row ([], after, e) = cc
kept-origin at index [] row (b ∷ before, after, e) = cc
kept-origin at index (r ∷ rows) row held =
    let later : Holds (kept_rows at (index + 1) rows) row
        → (i : ℕ) × (get_elem? (r ∷ rows) i ≡ some row)
          × ((index + i == at) ≡ false)
          × IsTyped row =
      λ h.
        let (i, found, other, typed) = kept-origin at (index + 1) rows row h in
        (suc i, found, ground (arith, other), typed) in
    elim (Bool-cases
      (not (index == at) && (not (is_empty (trim r.key)) || not (is_empty r.value)))) [
        | inl k ↦ elim (Holds-cases r (kept_rows at (index + 1) rows) row (rw k at held)) [
          | inl same ↦
              let (other, typed) = and_parts (not (index == at)) _ k in
              (0, ap some (sym same), ground (arith, other), rw same typed)
          | inr rest ↦ later rest
        ]
        | inr k ↦ later (rw k at held)
      ]

one_of-taken :
    (rows : List Row) (key : Text)
    → one_of (upper_keys rows) key ≡ true
    → (row : Row) × Holds rows row × (to_upper (trim row.key) ≡ key)
unfolding upper_keys one_of
one_of-taken [] key h = cc
one_of-taken (r ∷ rows) key h = elim (Bool-cases (text_eq (to_upper (trim r.key)) key)) [
  | inl e ↦ (r, Holds-self r rows r refl, (text_eq_iff (to_upper (trim r.key)) key).0 e)
  | inr e ↦
      let (row, held, same) = one_of-taken rows key (rw e at h) in
      (row, Holds-cons r rows row held, same)
]

taken-one_of :
    (rows : List Row) (row : Row)
    → Holds rows row
    → one_of (upper_keys rows) (to_upper (trim row.key)) ≡ true
unfolding upper_keys one_of
taken-one_of [] row ([], after, e) = cc
taken-one_of [] row (b ∷ before, after, e) = cc
taken-one_of (r ∷ rows) row held = elim (Holds-cases r rows row held) [
  | inl same ↦ rw same (rw (text_eq_refl (to_upper (trim r.key))) refl)
  | inr later ↦ let rest = taken-one_of rows row later in ground (arith, rest)
]

-- The keys that the code compares with are those of the rows that stay.
pub not_taken :
    (at : ℕ) (rows : List Row) (key : Text)
    → (IsTaken at rows key → ⊥)
    → one_of (upper_keys (kept_rows at 0 rows)) key ≡ false
not_taken at rows key free = elim (Bool-cases (one_of (upper_keys (kept_rows at 0 rows)) key)) [
  | inl e ↦
      let (row, held, same) = one_of-taken (kept_rows at 0 rows) key e in
      let (i, found, other, typed) = kept-origin at 0 rows row held in
      absurd (free (row, (i, found, ground (arith, other), typed), same))
  | inr e ↦ e
]

-- A row made of an entry whose key none of the rows that stay has.
abbrev pub IsFilled : ℕ → List Row → List ParsedEntry → Row → Type 0
IsFilled at rows entries row =
    (e : ParsedEntry) × Holds entries e
    × (row.key ≡ e.key)
    × (row.value ≡ e.value)
    × (IsTaken at rows (to_upper e.key) → ⊥)

taken-free :
    (at : ℕ) (rows : List Row) (key : Text)
    → one_of (upper_keys (kept_rows at 0 rows)) key ≡ false
    → IsTaken at rows key
    → ⊥
taken-free at rows key free (row, (i, found, other, typed), same) =
    let held = kept-Holds at 0 i rows row found (ground (arith, other)) typed in
    let there = taken-one_of (kept_rows at 0 rows) row held in
    true_ne (sym (rw same at there) ∙ free)
  where
    true_ne : true ≡ false → ⊥
    true_ne e = cc

pub added-AllFilled :
    (at : ℕ) (rows : List Row) (all : List ParsedEntry) (next : ℕ) (entries : List ParsedEntry)
    → ((e : ParsedEntry) → Holds entries e → Holds all e)
    → All (IsFilled at rows all) (added_rows (upper_keys (kept_rows at 0 rows)) next entries)
unfolding added_rows new_row
added-AllFilled at rows all next [] among = tt
added-AllFilled at rows all next (e ∷ entries) among =
    let later : (x : ParsedEntry) → Holds entries x → Holds all x =
      λ x held. among x (Holds-cons e entries x held) in
    elim (Bool-cases (one_of (upper_keys (kept_rows at 0 rows)) (to_upper e.key))) [
      | inl k ↦ rw k (added-AllFilled at rows all next entries later)
      | inr k ↦ rw k (
        (
          e,
          among e (Holds-self e entries e refl),
          refl,
          refl,
          taken-free at rows (to_upper e.key) k,
        ),
        added-AllFilled at rows all (next + 1) entries later,
      )
    ]
