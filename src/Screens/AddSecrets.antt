-- ===== src/Screens/AddSecrets.antt =====
-- web/components/add-secrets-dialog.tsx: the dialog that adds secrets, one by one or from a pasted file.
-- `new Date(…).toISOString()` is a parameter; `none` is the exception it throws.
pub mod Merge
pub mod Submit
pub mod Rows
pub mod Fields
pub mod Numbered
pub mod Fresh
pub mod Sending
pub mod Keeping
pub mod Pasting
use warder.Base.{
  ℕ, ◌+◌, ◌≡◌, Bool, true, false, ◌&&◌, ◌||◌, not, Option, none, some, List, [], ◌∷◌, ◌++◌, map,
  Text, lit, text_eq, strip_prefix, includes, is_empty, trim, to_upper, one_of, length, get_elem?,
  any, filter, ltb, ◌==◌, if◌then◌else◌, is_digit, read_digits, number_text, Json, str, arr, object,
  array_of,
}
use warder.ClientApi.{ClientOptions}
use warder.Dotenv.{ParsedEntry, Skipped, ParseResult, parse_dotenv, looks_like_dotenv}

pub record Row : Type 0 where
  pub id : ℕ
  pub key : Text
  pub value : Text

-- The state of the dialog; `next_row_id` is the variable of the module.
pub record Dialog : Type 0 where
  pub is_open : Bool
  pub environment_id : Text
  pub rows : List Row
  pub expires_at : Text
  pub error : Option Text
  pub field_errors : ℕ → Option Text
  pub conflicts : List Text
  pub notice : Option Text
  pub pending : Bool
  pub next_row_id : ℕ

-- `row.key.trim() !== ""`
unfoldable pub is_filled : Row → Bool
is_filled row = not (is_empty (trim row.key))

unfoldable pub filled_rows : List Row → List Row
filled_rows rows = filter is_filled rows

-- The capture of `/^secrets\.(\d+)\./`.
unfoldable pub index_before_dot : ℕ × Text → Option ℕ
index_before_dot (n, []) = none
index_before_dot (n, c ∷ s) = if c == b'.' then some n else none

unfoldable pub index_of_digits : Text → Option ℕ
unfolding index_before_dot
index_of_digits [] = none
index_of_digits (c ∷ s) = if is_digit c then index_before_dot (read_digits 0 (c ∷ s)) else none

unfoldable pub row_index : Text → Option ℕ
unfolding index_of_digits
row_index field = elim (strip_prefix (lit "secrets.") field) [
  | none ↦ none
  | some rest ↦ index_of_digits rest
]

-- The row that a field path names.
unfoldable pub named_row : List Row → Text → Option Row
unfolding row_index filled_rows
named_row rows field = elim (row_index field) [
  | none ↦ none
  | some i ↦ get_elem? (filled_rows rows) i
]

unfoldable pub put_error : Option Row → Text → (ℕ → Option Text) → ℕ → Option Text
put_error none message errors = errors
put_error (some row) message errors = λ id. if id == row.id then some message else errors id

-- `mapFieldErrors`: the loop over the entries, from what is mapped so far.
unfoldable pub map_errors : List Row → List (Text × Text) → (ℕ → Option Text) → ℕ → Option Text
unfolding named_row put_error
map_errors rows [] errors = errors
map_errors rows ((field, message) ∷ details) errors =
    map_errors rows details (put_error (named_row rows field) message errors)

unfoldable pub map_field_errors : List (Text × Text) → List Row → ℕ → Option Text
unfolding map_errors
map_field_errors details rows = map_errors rows details λ id. none

unfoldable pub add_key : Option Row → List Text → List Text
add_key none keys = keys
add_key (some row) keys = trim row.key ∷ keys

unfoldable pub conflicting_keys : List (Text × Text) → List Row → List Text
unfolding named_row add_key
conflicting_keys [] rows = []
conflicting_keys ((field, message) ∷ details) rows =
    let rest = conflicting_keys details rows in
    if includes message (lit "already has that key")
    then add_key (named_row rows field) rest
    else rest

unfoldable pub new_row : ℕ → Text → Text → Row
new_row id key value = record { id = id; key = key; value = value }

-- What `useState([newRow()])` starts with, and what every later render draws in vain.
unfoldable pub first_render : Text → ℕ → Dialog
unfolding new_row
first_render environment_id next = record {
  is_open = false;
  environment_id = environment_id;
  rows = new_row next [] [] ∷ [];
  expires_at = [];
  error = none;
  field_errors = λ id. none;
  conflicts = [];
  notice = none;
  pending = false;
  next_row_id = next + 1;
}

unfoldable pub rerender : Dialog → Dialog
rerender d = record d { next_row_id = d.next_row_id + 1 }

unfoldable pub reset : Text → Dialog → Dialog
unfolding new_row
reset current d = record d {
  environment_id = current;
  rows = new_row d.next_row_id [] [] ∷ [];
  expires_at = [];
  error = none;
  notice = none;
  next_row_id = d.next_row_id + 1;
}

unfoldable pub with_key : ℕ → Text → Row → Row
with_key id next row = if row.id == id then record row { key = to_upper next } else row

unfoldable pub with_value : ℕ → Text → Row → Row
with_value id next row = if row.id == id then record row { value = next } else row

unfoldable pub set_key : ℕ → Text → Dialog → Dialog
unfolding with_key
set_key id next d = record d { rows = map (with_key id next) d.rows }

unfoldable pub set_value : ℕ → Text → Dialog → Dialog
unfolding with_value
set_value id next d = record d { rows = map (with_value id next) d.rows }

unfoldable pub remove_row : ℕ → Dialog → Dialog
remove_row id d = record d { rows = filter (λ (row : Row). not (row.id == id)) d.rows }

unfoldable pub add_another : Dialog → Dialog
unfolding new_row
add_another d = record d {
  rows = d.rows ++ new_row d.next_row_id [] [] ∷ [];
  next_row_id = d.next_row_id + 1;
}

-- `onOpenChange` of the dialog, and the Cancel button.
unfoldable pub open_change : Text → Bool → Dialog → Dialog
unfolding reset
open_change current next d =
    let opened = record d { is_open = next } in if next then opened else reset current opened

unfoldable pub cancel : Dialog → Dialog
cancel d = record d { is_open = false }
