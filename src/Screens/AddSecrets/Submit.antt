-- ===== src/Screens/AddSecrets/Submit.antt =====
-- `submit` of the dialog that adds secrets.
use warder.Base.{
  ℕ, true, false, Option, none, some, List, [], ◌∷◌, ◌++◌, map, Text, lit, is_empty, trim,
  number_text, if◌then◌else◌, Json, str, arr, object, array_of,
}
use warder.Screens.Shared.{Call, expiry_of}
use warder.Screens.AddSecrets.Merge.{plural}
use warder.Screens.AddSecrets.{Row, Dialog, filled_rows, map_field_errors, conflicting_keys, reset}

unfoldable pub first_without_value : List Row → Option Row
first_without_value [] = none
first_without_value (row ∷ rows) =
    let later = first_without_value rows in if is_empty row.value then some row else later

unfoldable pub secret_body : Row → Json
secret_body row =
    object ((lit "key", some (str (trim row.key))) ∷ (lit "value", some (str row.value)) ∷ [])

unfoldable pub batch_body : List Row → Text → Json
unfolding secret_body
batch_body rows expires_at = object (
    (lit "secrets", some (arr (array_of (map secret_body rows))))
    ∷ (lit "expiresAt", some (str expires_at))
    ∷ [])

unfoldable pub batch_path : Text → Text
batch_path environment_id = lit "/api/environments/" ++ (environment_id ++ lit "/secrets/batch")

unfoldable pub batch_call : Dialog → Text → Call
unfolding batch_body batch_path
batch_call d expires_at = record {
  path = batch_path d.environment_id;
  options = record {
    method = some (lit "POST");
    body = some (batch_body (filled_rows d.rows) expires_at);
  };
}

-- `setError(null)`, `setFieldErrors({})`, `setConflicts([])`
unfoldable pub cleared : Dialog → Dialog
cleared d = record d { error = none; field_errors = λ id. none; conflicts = [] }

unfoldable pub failed_with : Text → Dialog → Dialog
failed_with message d = record d { error = some message }

module _ (iso : Text → Option Text) where
  -- The part behind the checks: the request, or the failure to write the expiry.
  unfoldable pub send_batch : Dialog → Option Text → Dialog × Option Call
  unfolding failed_with batch_call
  send_batch d none =
      (record (failed_with (lit "Invalid time value") (cleared d)) { pending = false }, none)
  send_batch d (some expires_at) =
      (record (cleared d) { pending = true }, some (batch_call d expires_at))

  unfoldable pub submit_filled : Dialog → Option Row → Dialog × Option Call
  unfolding expiry_of send_batch failed_with cleared
  submit_filled d (some row) = (failed_with (row.key ++ lit " has no value.") (cleared d), none)
  submit_filled d none = send_batch d (expiry_of iso d.expires_at)

  unfoldable pub submit : Dialog → Dialog × Option Call
  unfolding submit_filled first_without_value failed_with cleared
  submit d =
      if is_empty (filled_rows d.rows)
      then (failed_with (lit "Add at least one key.") (cleared d), none)
      else submit_filled d (first_without_value (filled_rows d.rows))

-- How `apiFetch` ends: with the count of the answer, or with an exception that has a message, and
-- details if it is an `ApiError` with some.
pub data Answer : Type 0 where
  added : ℕ → Answer
  rejected : Option (List (Text × Text)) → Text → Answer

unfoldable pub add_details : Option (List (Text × Text)) → List Row → Dialog → Dialog
add_details none rows d = d
add_details (some details) rows d = record d {
  field_errors = map_field_errors details rows;
  conflicts = conflicting_keys details rows;
}

-- What happens to the state when the answer is there. `rows` are those of the render that submitted,
-- `current` is the environment that the page shows.
unfoldable pub settle : Text → List Row → Answer → Dialog → Dialog
unfolding add_details failed_with
settle current rows (added count) d = record (reset current d) { is_open = false; pending = false }
settle current rows (rejected details message) d =
    record (failed_with message (add_details details rows d)) { pending = false }

unfoldable pub success_message : ℕ → Option Text → Text
success_message count name =
    number_text count
    ++ (lit " "
        ++ (plural count (lit "secret") (lit "secrets")
            ++ (lit " added to "
                ++ (elim name [ some n ↦ n | none ↦ lit "the environment" ]
                    ++ lit " and encrypted."))))
