-- ===== src/Tests/Dialogs.antt =====
-- The dialog that adds secrets, the field that picks some of them, and the sign-in form.
use mathlib.Core.Option
use warder.Base.{
  map, runs, text_eq, if◌then◌else◌, ◌≡◌, ◌⊎◌, ◌↔◌, refl, ℕ, true, false, Option, none, some, List,
  [], ◌∷◌, Text, lit, Json, null, bool, str, object, get_elem?,
}
use warder.ClientApi.{ClientReply, replied}
use warder.Screens.AddSecrets.{Row, Dialog, new_row, filled_rows, first_render, map_field_errors}
use warder.Screens.AddSecrets.Fields.{
  Detail, entry_of, last_message, row_of_item, map_field_errors-last,
}
use warder.Screens.AddSecrets.Rows.{
  Event, added_another, typed_key, removed, pasted, submitted, settled, open_changed, handle,
}
use warder.Screens.AddSecrets.Sending.{IsHeld, IsSent, submit_cases}
use warder.Screens.AddSecrets.Submit.{secret_body, added, submit}
use warder.Screens.KeyPicker.{mounted, enter}
use warder.Screens.KeyPicker.Happenings.{
  Happening, arrived, clicked, environment_changed, typed, pressed,
}
use warder.Screens.KeyPicker.Available.{IsAvailable, runs-IsAvailable}
use warder.Screens.Login.{Login, Result, returned, confirm}
use warder.Screens.Login.Cleared.{IsWiped, IsAnswered, submitted-IsWiped, MovedOn}
use warder.Screens.Login.Confirmed.{IsConfirmed, confirm-IsConfirmed}

abbrev readable : Text → Option Text
readable t = some t

abbrev events : List Event
events =
    added_another
    ∷ typed_key 0 (lit "a")
    ∷ pasted (lit "A=1") 0
    ∷ removed 1
    ∷ submitted
    ∷ settled [] (added 1)
    ∷ open_changed false
    ∷ []

-- The dialog after these.
abbrev after_events : Dialog
after_events = runs (handle (lit "env") readable) events (first_render (lit "env") 0)

abbrev three_rows : List Row
three_rows = new_row 0 [] (lit "x") ∷ new_row 1 (lit "A") (lit "1") ∷ new_row 2 (lit "B") [] ∷ []

abbrev two_details : List Detail
two_details =
    record { index = 1; field = lit "key"; message = lit "taken" }
    ∷ record { index = 0; field = lit "value"; message = lit "too long" }
    ∷ []

map_field_errors-last_example :
    (map_field_errors (map entry_of two_details) three_rows 1
      ≡ last_message three_rows 1 two_details)
    × (get_elem? (map secret_body (filled_rows three_rows)) 1
        ≡ Option.map secret_body (row_of_item three_rows 1))
map_field_errors-last_example = map_field_errors-last three_rows two_details 1 1

abbrev dialog : Dialog
dialog = first_render (lit "env") 0

submit_cases_example :
    IsHeld readable dialog (submit readable dialog)
    ⊎ IsSent readable dialog (submit readable dialog)
submit_cases_example = submit_cases readable dialog

-- What the server holds, whatever the number of the request.
abbrev contents : ℕ → Text → List Text
contents n id = if text_eq id (lit "env") then lit "A" ∷ lit "B" ∷ [] else lit "B" ∷ []

-- The answer to request 1 arrives after the environment was changed back, and is ignored.
abbrev happenings : List Happening
happenings =
    arrived 0
    ∷ clicked (lit "B")
    ∷ typed (lit "a")
    ∷ pressed enter
    ∷ environment_changed (lit "other")
    ∷ environment_changed (lit "env")
    ∷ arrived 1
    ∷ arrived 2
    ∷ []

runs-IsAvailable_example : IsAvailable contents (
    runs
      (warder.Screens.KeyPicker.Happenings.happen contents)
      happenings
      (mounted (lit "env") (lit "C" ∷ [])))
runs-IsAvailable_example = runs-IsAvailable contents happenings (lit "env") (lit "C" ∷ [])

-- The answer to request 0 comes when request 1 is awaited.
late_answer_ignored :
    (runs
      (warder.Screens.KeyPicker.Happenings.happen contents)
      (environment_changed (lit "other") ∷ arrived 0 ∷ [])
      (mounted (lit "env") [])).keys
    ≡ []
unfolding runs warder.Screens.KeyPicker.Happenings.happen
    warder.Screens.KeyPicker.change_environment warder.Base.is_empty lit mounted
    warder.Screens.KeyPicker.loaded
late_answer_ignored = refl

abbrev form : Login
form = record {
  email = lit "ada@example.org";
  password = lit "secret";
  error = none;
  pending = true;
  pending_token = none;
  using_code = false;
  recovery_code = [];
  signed_in = 0;
}

abbrev asks : ClientReply
asks = replied 200 (
    some (
      object
        ((lit "mfaRequired", some (bool true)) ∷ (lit "pendingToken", some (str (lit "t"))) ∷ [])))

submitted-IsWiped_example :
    IsWiped (warder.Screens.Login.submitted asks form)
    × IsAnswered form asks (warder.Screens.Login.submitted asks form)
submitted-IsWiped_example = submitted-IsWiped asks form

abbrev offline : Json
offline = str (lit "Failed to fetch")

abbrev post_ok : Text → Json → ClientReply
post_ok path body = replied 200 (some null)

abbrev signs : Option Json → Result Json
signs options = returned (str (lit "signed"))

abbrev finished : Login
finished = warder.Screens.Login.settled (confirm offline post_ok signs (lit "t")) form

confirm-IsConfirmed_example : MovedOn form finished ↔ IsConfirmed post_ok signs (lit "t")
confirm-IsConfirmed_example = confirm-IsConfirmed offline post_ok signs (lit "t") form
