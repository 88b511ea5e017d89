-- ===== src/Dotenv.antt =====
-- web/lib/dotenv.ts: the parser of pasted `.env` text.
pub mod Keys
use mathlib.Core.Option
use warder.Base.{
  ℕ, ◌+◌, ◌-◌, Bool, false, ◌&&◌, ◌||◌, Option, none, some, List, [], ◌∷◌, ◌++◌, Text, lit,
  starts_with, strip_prefix, cut_at, is_space, trim_start, trim, is_empty, length, take, all, leb,
  ltb, ◌==◌, if◌then◌else◌,
}

pub record ParsedEntry : Type 0 where
  pub key : Text
  pub value : Text

pub record Skipped : Type 0 where
  pub line : ℕ
  pub text : Text

pub record ParseResult : Type 0 where
  pub entries : List ParsedEntry
  pub skipped : List Skipped

-- `input.split(/\r?\n/)`
unfoldable pub cons_first : ℕ → List Text → List Text
cons_first c [] = (c ∷ []) ∷ []
cons_first c (l ∷ ls) = (c ∷ l) ∷ ls

unfoldable pub split_lines : Text → List Text
unfolding cons_first
split_lines [] = [] ∷ []
split_lines (c ∷ []) = if c == 10 then [] ∷ [] ∷ [] else (c ∷ []) ∷ []
split_lines (c ∷ d ∷ s) =
    let after_both = split_lines s in
    let after_one = split_lines (d ∷ s) in
    if c == 10
    then [] ∷ after_one
    else if c == 13 && d == 10
    then [] ∷ after_both
    else cons_first c after_one

-- `VALID_KEY`
unfoldable pub is_key_start : ℕ → Bool
is_key_start c = leb b'A' c && leb c b'Z' || leb b'a' c && leb c b'z' || c == b'_'

unfoldable pub is_key_unit : ℕ → Bool
unfolding is_key_start
is_key_unit c = is_key_start c || leb b'0' c && leb c b'9'

unfoldable pub is_valid_key : Text → Bool
unfolding is_key_unit is_key_start
is_valid_key [] = false
is_valid_key (c ∷ s) = is_key_start c && all is_key_unit s

unfoldable pub truncate : Text → Text
truncate text = if ltb 24 (length text) then take 24 text ++ (0x2026 ∷ []) else text

-- `line.replace(/^export\s+/, "")`
unfoldable pub drop_spaces_or : Text → Text → Text
drop_spaces_or line [] = line
drop_spaces_or line (c ∷ s) = if is_space c then trim_start s else line

unfoldable pub strip_export : Text → Text
unfolding strip_prefix drop_spaces_or
strip_export line = elim (strip_prefix (lit "export") line) [
  | none ↦ line
  | some rest ↦ drop_spaces_or line rest
]

-- The place of the closing quote.
unfoldable pub closing_index : ℕ → Text → Option ℕ
closing_index quote [] = none
closing_index quote (c ∷ []) = if c == b'\\' then none else if c == quote then some 0 else none
closing_index quote (c ∷ d ∷ s) =
    let escaped = Option.map (λ (i : ℕ). i + 2) (closing_index quote s) in
    let later = Option.map (λ (i : ℕ). i + 1) (closing_index quote (d ∷ s)) in
    if c == b'\\' then escaped else if c == quote then some 0 else later

-- `value.replace(/\\x/g, r)`: each backslash with the unit `x` behind it becomes `r`.
unfoldable pub replace_escape : ℕ → ℕ → Text → Text
replace_escape x r [] = []
replace_escape x r (c ∷ []) = c ∷ []
replace_escape x r (c ∷ d ∷ s) =
    let replaced = r ∷ replace_escape x r s in
    let kept = c ∷ replace_escape x r (d ∷ s) in if c == b'\\' && d == x then replaced else kept

unfoldable pub unescape_double : Text → Text
unfolding replace_escape
unescape_double value = replace_escape b'\\' b'\\' (
    replace_escape b'"' b'"'
      (replace_escape b't' 9 (replace_escape b'r' 13 (replace_escape b'n' 10 value))))

-- `rest.slice(0, rest.search(/\s#/))`, or all of it.
unfoldable pub before_comment : Text → Text
before_comment [] = []
before_comment (c ∷ []) = c ∷ []
before_comment (c ∷ d ∷ s) =
    let kept = c ∷ before_comment (d ∷ s) in if is_space c && d == b'#' then [] else kept

-- The entry of a quoted value that closes at `end`.
unfoldable pub quoted_entry : Text → ℕ → Text → ℕ → ParsedEntry
unfolding unescape_double
quoted_entry key quote body end = record {
  key = key;
  value = if quote == b'"' then unescape_double (take end body) else take end body;
}

-- What one line is by itself: nothing, text that cannot be read, an entry, or the start of a quoted
-- value that is still open at its end.
pub data Line : Type 0 where
  blank : Line
  unreadable : Text → Line
  entry : ParsedEntry → Line
  opened : Text → ℕ → Text → Line

unfoldable pub read_quoted : Text → ℕ → Text → Line
unfolding closing_index quoted_entry
read_quoted key quote body = elim (closing_index quote body) [
  | none ↦ opened key quote body
  | some end ↦ entry (quoted_entry key quote body end)
]

unfoldable pub read_value : Text → Text → Line
unfolding read_quoted before_comment
read_value key [] = entry (record { key = key; value = [] })
read_value key (quote ∷ body) =
    if quote == b'"' || quote == b'\''
    then read_quoted key quote body
    else entry (record { key = key; value = trim (before_comment (quote ∷ body)) })

unfoldable pub read_assignment : Text → Line
unfolding truncate is_valid_key read_value
read_assignment text = elim (cut_at b'=' text) [
  | none ↦ unreadable (truncate text)
  | some (before, after) ↦
      if is_valid_key (trim before)
      then read_value (trim before) (trim after)
      else unreadable (truncate text)
]

unfoldable pub read_trimmed : Text → Line
unfolding strip_export read_assignment
read_trimmed line =
    if is_empty line || starts_with line (lit "#")
    then blank
    else read_assignment (strip_export line)

unfoldable pub read_line : Text → Line
unfolding read_trimmed
read_line raw = read_trimmed (trim raw)

-- Where the loop stands: between entries, or in the inner loop that looks for a closing quote.
pub data Mode : Type 0 where
  between : Mode
  within : Text → ℕ → Text → Mode

abbrev pub add_entry : ParsedEntry → ParseResult → ParseResult
add_entry e r = record { entries = e ∷ r.entries; skipped = r.skipped }

abbrev pub add_skipped : ℕ → Text → ParseResult → ParseResult
add_skipped n text r = record {
  entries = r.entries;
  skipped = record { line = n; text = text } ∷ r.skipped;
}

abbrev pub nothing : ParseResult
nothing = record { entries = []; skipped = [] }

-- Both loops of `parseDotenv`; `n` is the number of the next line, counted from 1.
unfoldable pub parse_lines : ℕ → Mode → List Text → ParseResult
unfolding read_line closing_index quoted_entry truncate
parse_lines n between [] = nothing
parse_lines n (within key quote body) [] =
    add_skipped (n - 1) (truncate (key ++ (b'=' ∷ 0x2026 ∷ []))) nothing
parse_lines n between (raw ∷ lines) = elim (read_line raw) [
  | blank ↦ parse_lines (n + 1) between lines
  | unreadable text ↦ add_skipped n text (parse_lines (n + 1) between lines)
  | entry e ↦ add_entry e (parse_lines (n + 1) between lines)
  | opened key quote body ↦ parse_lines (n + 1) (within key quote body) lines
]
parse_lines n (within key quote body) (raw ∷ lines) =
    let longer = body ++ (10 ∷ raw) in
    elim (closing_index quote longer) [
      | none ↦ parse_lines (n + 1) (within key quote longer) lines
      | some end ↦ add_entry (quoted_entry key quote longer end) (parse_lines (n + 1) between lines)
    ]

unfoldable pub parse_dotenv : Text → ParseResult
unfolding split_lines parse_lines
parse_dotenv input = parse_lines 1 between (split_lines input)

unfoldable pub looks_like_dotenv : Text → Bool
looks_like_dotenv text =
    let result = parse_dotenv text in
    ltb 0 (length result.entries) && leb (length result.skipped) (length result.entries)
