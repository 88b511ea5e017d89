-- ===== src/Screens/AddSecrets/Fields.antt =====
-- The messages that the core API attaches to fields of a batch.
use mathlib.Core.Option
use warder.Base.{
  not, Bool-cases, inl, inr, ap, ◌∙◌, filter, trim, is_empty, ℕ, zero, suc, ◌≡◌, refl, false,
  Option, none, some, List, [], ◌∷◌, ◌++◌, map, Text, lit, strip_prefix-append, number_text,
  read_digits, is_digit, read_digits-text, text-StartsDigit, StartsDigit, get_elem?, ◌==◌,
  if◌then◌else◌,
}
use warder.Screens.AddSecrets.{
  Row, is_filled, filled_rows, index_before_dot, index_of_digits, row_index, named_row, put_error,
  map_errors, map_field_errors,
}
use warder.Screens.AddSecrets.Submit.{secret_body}

-- `secrets.<i>.<name>`
abbrev pub field_path : ℕ → Text → Text
field_path i name = lit "secrets." ++ (number_text i ++ b'.' ∷ name)

digits_index :
    (s : Text) (n : ℕ) (rest : Text)
    → StartsDigit s
    → read_digits 0 s ≡ (n, b'.' ∷ rest)
    → index_of_digits s ≡ some n
unfolding index_of_digits index_before_dot
digits_index [] n rest h e = absurd h
digits_index (c ∷ s) n rest h e = rw (h, e) refl

dot-not-digit : is_digit b'.' ≡ false
unfolding is_digit
dot-not-digit = refl

-- The index in the path of a field, however large, is the one that the core API wrote there.
row_index-path : (i : ℕ) (name : Text) → row_index (field_path i name) ≡ some i
unfolding row_index
row_index-path i name =
    rw (strip_prefix-append (lit "secrets.") (number_text i ++ b'.' ∷ name), row_index)
      (digits_index (number_text i ++ b'.' ∷ name) i name (text-StartsDigit i (b'.' ∷ name))
        (read_digits-text i b'.' name dot-not-digit))

named_row-path :
    (rows : List Row) (i : ℕ) (name : Text)
    → named_row rows (field_path i name) ≡ get_elem? (filled_rows rows) i
unfolding named_row
named_row-path rows i name = rw (row_index-path i name, named_row) refl

-- A message of the core API, about a field of the item with this index.
pub record Detail : Type 0 where
  pub index : ℕ
  pub field : Text
  pub message : Text

abbrev pub entry_of : Detail → Text × Text
entry_of d = (field_path d.index d.field, d.message)

-- The row that an item was made of: items are made of the rows whose key is not blank, in order.
abbrev pub row_of_item : List Row → ℕ → Option Row
row_of_item rows i = get_elem? (filter (λ (row : Row). not (is_empty (trim row.key))) rows) i

-- The message for the row `id`, if the detail is about that row.
abbrev pub message_for : ℕ → Text → Option Row → Option Text
message_for id message none = none
message_for id message (some row) = if id == row.id then some message else none

abbrev pub or_message : Option Text → Option Text → Option Text
or_message none o = o
or_message (some m) o = some m

-- The last of the messages about the row `id`.
abbrev pub last_message : List Row → ℕ → List Detail → Option Text
last_message rows id [] = none
last_message rows id (d ∷ details) =
    or_message (last_message rows id details) (message_for id d.message (row_of_item rows d.index))

or_message_assoc :
    (a b c : Option Text) → or_message a (or_message b c) ≡ or_message (or_message a b) c
or_message_assoc none b c = refl
or_message_assoc (some m) b c = refl

put_error-message :
    (o : Option Row) (message : Text) (errors : ℕ → Option Text) (id : ℕ)
    → put_error o message errors id ≡ or_message (message_for id message o) (errors id)
unfolding put_error
put_error-message none message errors id = refl
put_error-message (some row) message errors id = elim (Bool-cases (id == row.id)) [
  | inl e ↦ rw e refl
  | inr e ↦ rw e refl
]

filled_row : (rows : List Row) (i : ℕ) → get_elem? (filled_rows rows) i ≡ row_of_item rows i
unfolding filled_rows is_filled
filled_row rows i = refl

map_errors-last :
    (rows : List Row) (details : List Detail) (errors : ℕ → Option Text) (id : ℕ)
    → map_errors rows (map entry_of details) errors id
      ≡ or_message (last_message rows id details) (errors id)
unfolding map_errors
map_errors-last rows [] errors id = refl
map_errors-last rows (d ∷ details) errors id =
    let found = named_row-path rows d.index d.field ∙ filled_row rows d.index in
    map_errors-last rows details
      (put_error (named_row rows (field_path d.index d.field)) d.message errors) id
    ∙ (ap (λ o. or_message (last_message rows id details) o)
          (put_error-message _ d.message errors id
            ∙ ap (λ o. or_message (message_for id d.message o) (errors id)) found)
        ∙ or_message_assoc (last_message rows id details)
            (message_for id d.message (row_of_item rows d.index)) (errors id))

or_message-none : (o : Option Text) → or_message o none ≡ o
or_message-none none = refl
or_message-none (some m) = refl

get_elem-map :
    (rows : List Row) (i : ℕ)
    → get_elem? (map secret_body rows) i ≡ Option.map secret_body (get_elem? rows i)
get_elem-map [] i = refl
get_elem-map (r ∷ rows) zero = refl
get_elem-map (r ∷ rows) (suc i) = get_elem-map rows i

-- However many messages the core API sends about items of the batch, a row shows the last of those about
-- the item that was made of it, and nothing if there is none; rows without a key, of which no item is
-- made, do not shift the others. The item at an index is indeed the one of that row.
pub map_field_errors-last :
    (rows : List Row) (details : List Detail) (id i : ℕ)
    → (map_field_errors (map entry_of details) rows id ≡ last_message rows id details)
      × (get_elem? (map secret_body (filled_rows rows)) i
          ≡ Option.map secret_body (row_of_item rows i))
unfolding map_field_errors
map_field_errors-last rows details id i = (
  map_errors-last rows details (λ n. none) id ∙ or_message-none (last_message rows id details),
  get_elem-map (filled_rows rows) i ∙ ap (Option.map secret_body) (filled_row rows i),
)
