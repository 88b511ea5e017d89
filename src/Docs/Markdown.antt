-- ===== src/Docs/Markdown.antt =====
-- web/lib/docs.ts: the title and the headings of a document. `letter_or_number` is the class
-- `[\p{L}\p{N}]`; code points above U+FFFF are taken as two units outside of it.
use mathlib.Core.Option
use warder.Base.{
  ℕ, Bool, true, false, ◌&&◌, ◌||◌, not, Option, none, some, List, [], ◌∷◌, Text, lit, is_space,
  trim, trim_start, to_lower, starts_with, is_empty, filter, ◌==◌, if◌then◌else◌,
}
use warder.Dotenv.{split_lines}

pub record Heading : Type 0 where
  pub id : Text
  pub text : Text
  pub level : ℕ

-- A run of white space becomes one hyphen; `joined` tells whether the run has its hyphen.
unfoldable pub join_words : Bool → Text → Text
join_words joined [] = []
join_words joined (c ∷ s) =
    let inside = join_words true s in
    let behind = c ∷ join_words false s in
    if is_space c then (if joined then inside else b'-' ∷ inside) else behind

-- What a line terminator is to `.`.
unfoldable pub ends_line : ℕ → Bool
ends_line c = c == 10 || c == 13 || c == 0x2028 || c == 0x2029

unfoldable pub drop_hashes : Text → Text
drop_hashes [] = []
drop_hashes (c ∷ s) = if c == b'#' then drop_hashes s else c ∷ s

-- `^\s*#*\s*$`
unfoldable pub closes : Text → Bool
unfolding drop_hashes
closes s = is_empty (trim_start (drop_hashes (trim_start s)))

-- `(.+?)\s*#*\s*$`
unfoldable pub lazy_text : Text → Option Text
unfolding ends_line closes
lazy_text [] = none
lazy_text (c ∷ s) =
    let longer = Option.map (λ t. c ∷ t) (lazy_text s) in
    if ends_line c then none else if closes s then some (c ∷ []) else longer

unfoldable pub or_try : Option Text → Option Text → Option Text
or_try none o = o
or_try (some t) o = some t

-- `\s*(.+?)\s*#*\s*$`, with as much white space first as leaves a match.
unfoldable pub spaced_text : Text → Option Text
unfolding lazy_text or_try
spaced_text [] = none
spaced_text (c ∷ s) =
    let deeper = spaced_text s in
    if is_space c then or_try deeper (lazy_text (c ∷ s)) else lazy_text (c ∷ s)

-- `\s+(.+?)\s*#*\s*$`
unfoldable pub heading_text : Text → Option Text
unfolding spaced_text
heading_text [] = none
heading_text (c ∷ s) = if is_space c then spaced_text s else none

unfoldable pub with_level : ℕ → Option Text → Option (ℕ × Text)
with_level n o = Option.map (λ (t : Text). (n, t)) o

-- Behind two hashes, of which there may be a third.
unfoldable pub behind_hashes : Text → Option (ℕ × Text)
unfolding heading_text with_level
behind_hashes [] = none
behind_hashes (c ∷ s) =
    if c == b'#' then with_level 3 (heading_text s) else with_level 2 (heading_text (c ∷ s))

-- `/^(#{2,3})\s+(.+?)\s*#*\s*$/`: the number of hashes and the text.
unfoldable pub match_heading : Text → Option (ℕ × Text)
unfolding behind_hashes
match_heading [] = none
match_heading (c ∷ []) = none
match_heading (c ∷ d ∷ s) = if c == b'#' && d == b'#' then behind_hashes s else none

unfoldable pub is_marker : ℕ → Bool
is_marker c = c == 96 || c == b'*'

unfoldable pub plain_text : Text → Text
unfolding is_marker
plain_text raw = filter (λ c. not (is_marker c)) raw

-- `/^\s*(```|~~~)/`
unfoldable pub is_fence : Text → Bool
is_fence line =
    starts_with (trim_start line) (lit "```") || starts_with (trim_start line) (lit "~~~")

module _ (letter_or_number : ℕ → Bool) where
  unfoldable pub is_slug_unit : ℕ → Bool
  is_slug_unit c = letter_or_number c || c == b'_' || c == 32 || c == b'-'

  unfoldable pub slugify_heading : Text → Text
  unfolding join_words is_slug_unit
  slugify_heading text = join_words false (trim (filter is_slug_unit (to_lower text)))

  unfoldable pub heading_of : ℕ × Text → Heading
  unfolding slugify_heading plain_text
  heading_of (level, raw) = record {
    id = slugify_heading (plain_text raw);
    text = plain_text raw;
    level = level;
  }

  unfoldable pub add_heading : Option (ℕ × Text) → List Heading → List Heading
  unfolding heading_of
  add_heading none headings = headings
  add_heading (some m) headings = heading_of m ∷ headings

  -- The loop over the lines, inside a fence or not.
  unfoldable pub headings_in : Bool → List Text → List Heading
  unfolding add_heading match_heading is_fence
  headings_in inside [] = []
  headings_in inside (line ∷ lines) =
      let toggled = headings_in (not inside) lines in
      let rest = headings_in inside lines in
      if is_fence line
      then toggled
      else if inside
      then rest
      else add_heading (match_heading line) rest

  unfoldable pub extract_headings : Text → List Heading
  unfolding headings_in
  extract_headings markdown = headings_in false (split_lines markdown)

-- `(\r?\n)*`
unfoldable pub drop_newlines : Text → Text
drop_newlines [] = []
drop_newlines (c ∷ []) = if c == 10 then [] else c ∷ []
drop_newlines (c ∷ d ∷ s) =
    let after_both = drop_newlines s in
    let after_one = drop_newlines (d ∷ s) in
    if c == 10 then after_one else if c == 13 && d == 10 then after_both else c ∷ d ∷ s

-- `(\r?\n)+`
unfoldable pub newlines : Text → Option Text
unfolding drop_newlines
newlines [] = none
newlines (c ∷ []) = if c == 10 then some [] else none
newlines (c ∷ d ∷ s) =
    if c == 10
    then some (drop_newlines (d ∷ s))
    else if c == 13 && d == 10
    then some (drop_newlines s)
    else none

-- `.*(\r?\n)+`
unfoldable pub line_end : Text → Option Text
unfolding newlines ends_line
line_end [] = none
line_end (c ∷ s) = let later = line_end s in if ends_line c then newlines (c ∷ s) else later

-- `\s*.*(\r?\n)+`, with as much white space first as leaves a match.
unfoldable pub title_end : Text → Option Text
unfolding line_end or_try
title_end [] = none
title_end (c ∷ s) =
    let deeper = title_end s in
    if is_space c then or_try deeper (line_end (c ∷ s)) else line_end (c ∷ s)

unfoldable pub strip_leading_h1 : Text → Text
unfolding title_end
strip_leading_h1 [] = []
strip_leading_h1 (c ∷ []) = c ∷ []
strip_leading_h1 (c ∷ d ∷ s) =
    if c == b'#' && is_space d then Option.get_or (title_end s) (c ∷ d ∷ s) else c ∷ d ∷ s
