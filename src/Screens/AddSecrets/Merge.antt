-- ===== src/Screens/AddSecrets/Merge.antt =====
-- A pasted file in the dialog that adds secrets.
use warder.Base.{
  ℕ, ◌+◌, Bool, true, false, ◌&&◌, ◌||◌, not, none, some, List, [], ◌∷◌, ◌++◌, map, Text, lit,
  is_empty, trim, to_upper, one_of, length, ◌==◌, if◌then◌else◌, number_text,
}
use warder.Dotenv.{ParsedEntry, Skipped, ParseResult, parse_dotenv, looks_like_dotenv}
use warder.Screens.AddSecrets.{Row, Dialog, new_row}

-- The rows that a paste keeps: not the one pasted into, and none that is blank.
unfoldable pub kept_rows : ℕ → ℕ → List Row → List Row
kept_rows at index [] = []
kept_rows at index (row ∷ rows) =
    let rest = kept_rows at (index + 1) rows in
    if not (index == at) && (not (is_empty (trim row.key)) || not (is_empty row.value))
    then row ∷ rest
    else rest

unfoldable pub upper_keys : List Row → List Text
upper_keys rows = map (λ (row : Row). to_upper (trim row.key)) rows

-- The rows made of the entries whose keys are not there yet.
unfoldable pub added_rows : List Text → ℕ → List ParsedEntry → List Row
unfolding new_row
added_rows existing next [] = []
added_rows existing next (e ∷ entries) =
    let skip = added_rows existing next entries in
    let add = new_row next e.key e.value ∷ added_rows existing (next + 1) entries in
    if one_of existing (to_upper e.key) then skip else add

unfoldable pub new_entries : ℕ → ℕ → List ParsedEntry → List Row → List Row
unfolding kept_rows upper_keys added_rows
new_entries at next entries rows = added_rows (upper_keys (kept_rows at 0 rows)) next entries

-- The rows kept, the rows added, and a blank one; the ids are drawn in this order.
unfoldable pub merged_rows : ℕ → ℕ → List ParsedEntry → List Row → List Row
unfolding kept_rows new_entries new_row
merged_rows at next entries rows =
    let added = new_entries at next entries rows in
    kept_rows at 0 rows ++ (added ++ new_row (next + length added) [] [] ∷ [])

unfoldable pub plural : ℕ → Text → Text → Text
plural n one many = if n == 1 then one else many

unfoldable pub join : Text → List Text → Text
join separator [] = []
join separator (s ∷ []) = s
join separator (s ∷ t ∷ rest) = s ++ (separator ++ join separator (t ∷ rest))

unfoldable pub skipped_note : List Skipped → Text
unfolding plural join
skipped_note skipped =
    number_text (length skipped)
    ++ (lit " "
        ++ (plural (length skipped) (lit "line") (lit "lines")
            ++ (lit " could not be read ("
                ++ (join (lit ", ")
                      (map (λ (s : Skipped). lit "line " ++ number_text s.line) skipped)
                    ++ (lit "): add "
                        ++ (plural (length skipped) (lit "it") (lit "them") ++ lit " by hand."))))))

unfoldable pub absorb_notice : ParseResult → Text
unfolding plural skipped_note
absorb_notice r =
    let first =
      lit "Filled "
      ++ (number_text (length r.entries)
          ++ (lit " " ++ (plural (length r.entries) (lit "key") (lit "keys") ++ lit "."))) in
    if is_empty r.skipped then first else first ++ (lit " " ++ skipped_note r.skipped)

-- `absorb` of a text with at least one entry.
unfoldable pub absorb_result : ParseResult → ℕ → Dialog → Dialog
unfolding merged_rows new_entries absorb_notice
absorb_result r at d = record d {
  rows = merged_rows at d.next_row_id r.entries d.rows;
  notice = some (absorb_notice r);
  error = none;
  next_row_id = d.next_row_id + length (new_entries at d.next_row_id r.entries d.rows) + 1;
}

unfoldable pub absorb : Text → ℕ → Dialog → Dialog
unfolding absorb_result
absorb text at d =
    if is_empty (parse_dotenv text).entries then d else absorb_result (parse_dotenv text) at d

-- A paste into the key field of the row at `at`: whether it was intercepted, and the state.
unfoldable pub paste_into_key : Text → ℕ → Dialog → Bool × Dialog
unfolding absorb
paste_into_key text at d = if looks_like_dotenv text then (true, absorb text at d) else (false, d)
