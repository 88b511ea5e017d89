-- ===== src/Dotenv/Keys.antt =====
-- The keys of the entries that are read.
use warder.Base.{
  ℕ, ◌+◌, ◌≤◌, ◌≡◌, ◌⊎◌, refl, arith, all, and_parts, inl, inr, true, ◌||◌, Bool-cases, some,
  Option-cases, List, [], ◌∷◌, ◌++◌, Text, lit, is_empty, starts_with, cut_at, trim, ◌==◌, All,
}
use warder.Dotenv.{
  ParsedEntry, ParseResult, is_valid_key, is_key_start, is_key_unit, Line, blank, unreadable, entry,
  opened, read_quoted, read_value, read_assignment, read_trimmed, read_line, Mode, between, within,
  closing_index, quoted_entry, strip_export, split_lines, parse_lines, parse_dotenv,
}

-- The key of what a line holds, if it holds one, has the form of `VALID_KEY`.
abbrev pub IsKeyed : Line → Type 0
IsKeyed blank = Unit
IsKeyed (unreadable text) = Unit
IsKeyed (entry e) = is_valid_key e.key ≡ true
IsKeyed (opened key quote body) = is_valid_key key ≡ true

abbrev pub IsKeyedMode : Mode → Type 0
IsKeyedMode between = Unit
IsKeyedMode (within key quote body) = is_valid_key key ≡ true

quoted-IsKeyed :
    (key : Text) (quote : ℕ) (body : Text)
    → is_valid_key key ≡ true
    → IsKeyed (read_quoted key quote body)
unfolding read_quoted
quoted-IsKeyed key quote body valid = elim (Option-cases (closing_index quote body)) [
  | inl e ↦ rw (e, read_quoted) valid
  | inr (end, e) ↦ rw (e, read_quoted, quoted_entry) valid
]

value-IsKeyed : (key text : Text) → is_valid_key key ≡ true → IsKeyed (read_value key text)
unfolding read_value
value-IsKeyed key [] valid = valid
value-IsKeyed key (quote ∷ body) valid = elim (Bool-cases (quote == b'"' || quote == b'\'')) [
  | inl e ↦ rw e (quoted-IsKeyed key quote body valid)
  | inr e ↦ rw e valid
]

assigned-IsKeyed :
    (text before after : Text)
    → cut_at b'=' text ≡ some (before, after)
    → IsKeyed (read_assignment text)
unfolding read_assignment
assigned-IsKeyed text before after e = elim (Bool-cases (is_valid_key (trim before))) [
  | inl valid ↦ rw (e, valid, read_assignment) (value-IsKeyed (trim before) (trim after) valid)
  | inr bad ↦ rw (e, bad, read_assignment) tt
]

assignment-IsKeyed : (text : Text) → IsKeyed (read_assignment text)
unfolding read_assignment
assignment-IsKeyed text = elim (Option-cases (cut_at b'=' text)) [
  | inl e ↦ rw (e, read_assignment) tt
  | inr (p, e) ↦ assigned-IsKeyed text p.0 p.1 e
]

line-IsKeyed : (raw : Text) → IsKeyed (read_line raw)
unfolding read_line read_trimmed
line-IsKeyed raw = elim (Bool-cases (is_empty (trim raw) || starts_with (trim raw) (lit "#"))) [
  | inl e ↦ rw e tt
  | inr e ↦ rw e (assignment-IsKeyed (strip_export (trim raw)))
]

abbrev pub AllKeyed : ParseResult → Type 0
AllKeyed r = All (λ (e : ParsedEntry). is_valid_key e.key ≡ true) r.entries

parse_lines-AllKeyed :
    (n : ℕ) (m : Mode) (lines : List Text) → IsKeyedMode m → AllKeyed (parse_lines n m lines)
unfolding parse_lines
parse_lines-AllKeyed n between [] k = tt
parse_lines-AllKeyed n (within key quote body) [] k = tt
parse_lines-AllKeyed n between (raw ∷ lines) k =
    by_line (read_line raw) (line-IsKeyed raw) refl (parse_lines-AllKeyed (n + 1) between lines tt)
      λ key quote body valid. parse_lines-AllKeyed (n + 1) (within key quote body) lines valid
  where
    by_line :
        (l : Line)
        → IsKeyed l
        → read_line raw ≡ l
        → AllKeyed (parse_lines (n + 1) between lines)
        → ((key : Text) (quote : ℕ) (body : Text)
            → is_valid_key key ≡ true
            → AllKeyed (parse_lines (n + 1) (within key quote body) lines))
        → AllKeyed (parse_lines n between (raw ∷ lines))
    by_line blank k e h f = rw (e, parse_lines) h
    by_line (unreadable text) k e h f = rw (e, parse_lines) h
    by_line (entry x) k e h f = rw (e, parse_lines) (k, h)
    by_line (opened key quote body) k e h f = rw (e, parse_lines) (f key quote body k)
parse_lines-AllKeyed n (within key quote body) (raw ∷ lines) k =
    elim (Option-cases (closing_index quote (body ++ 10 ∷ raw))) [
      | inl e ↦
          rw (e, parse_lines)
            (parse_lines-AllKeyed (n + 1) (within key quote (body ++ 10 ∷ raw)) lines k)
      | inr (end, e) ↦
          rw (e, parse_lines, quoted_entry) (k, parse_lines-AllKeyed (n + 1) between lines tt)
    ]

parse_dotenv-valid : (input : Text) → AllKeyed (parse_dotenv input)
unfolding parse_dotenv
parse_dotenv-valid input = parse_lines-AllKeyed 1 between (split_lines input) tt

-- A letter of ASCII or an underscore; one of them or a digit.
abbrev pub IsWordStart : ℕ → Type 0
IsWordStart c = ((65 ≤ c) × (c ≤ 90)) ⊎ (((97 ≤ c) × (c ≤ 122)) ⊎ (c ≡ 95))

abbrev pub IsWordUnit : ℕ → Type 0
IsWordUnit c = IsWordStart c ⊎ ((48 ≤ c) × (c ≤ 57))

-- The name of an environment variable, of any length.
pub record IsName (key : Text) : Type 0 where
  pub first : ℕ
  pub others : Text
  pub spelled : key ≡ first ∷ others
  pub starts : IsWordStart first
  pub goes_on : All IsWordUnit others

word_start : (c : ℕ) → is_key_start c ≡ true → IsWordStart c
unfolding is_key_start
word_start c h = ground (arith, h)

word_unit : (c : ℕ) → is_key_unit c ≡ true → IsWordUnit c
unfolding is_key_unit is_key_start
word_unit c h = ground (arith, h)

word_units : (s : Text) → all is_key_unit s ≡ true → All IsWordUnit s
word_units [] h = tt
word_units (c ∷ s) h = let (here, later) = and_parts _ _ h in (word_unit c here, word_units s later)

valid-IsName : (key : Text) → is_valid_key key ≡ true → IsName key
unfolding is_valid_key
valid-IsName [] h = cc
valid-IsName (c ∷ s) h =
    let (here, later) = and_parts _ _ h in
    record {
      first = c;
      others = s;
      spelled = refl;
      starts = word_start c here;
      goes_on = word_units s later;
    }

named_entries :
    (entries : List ParsedEntry)
    → All (λ (e : ParsedEntry). is_valid_key e.key ≡ true) entries
    → All (λ (e : ParsedEntry). IsName e.key) entries
named_entries [] h = tt
named_entries (e ∷ entries) (p, h) = (valid-IsName e.key p, named_entries entries h)

-- Whatever text is pasted, every entry that is read from it has the name of an environment variable as
-- its key, of whatever length: a letter of ASCII or an underscore, then letters, digits and underscores
-- only. This holds also when its value runs over several lines.
pub parse_dotenv-AllNamed :
    (input : Text) → All (λ (e : ParsedEntry). IsName e.key) (parse_dotenv input).entries
parse_dotenv-AllNamed input = named_entries (parse_dotenv input).entries (parse_dotenv-valid input)
