-- ===== src/Screens/CreateToken/Held.antt =====
-- How long the dialog holds a token.
use warder.Base.{
  ◌≡◌, refl, Bool, true, false, Option, none, some, List, Text, runs, AllFit, runs_keep_fit, ◌⊎◌,
  inl, inr,
}
use warder.Screens.CreateToken.{
  TokenDialog, unopened, close, change_open, send_token, submit_token, minted_as, not_minted,
  mark_copied,
}
use warder.Screens.Shared.{expiry_of}

-- All that can happen to the dialog.
pub data Event : Type 0 where
  open_changed : Bool → Event
  named : Text → Event
  identity_chosen environment_chosen : Text → Event
  keys_chosen : List Text → Event
  expiry_chosen : Text → Event
  submitted : Event
  answered : Text → Event
  refused : Text → Event
  copied : Bool → Event

module _ (iso : Text → Option Text) (project_id : Text) where
  unfoldable pub handle : Event → TokenDialog → TokenDialog
  handle (open_changed next) d = change_open next d
  handle (named name) d = record d { name = name }
  handle (identity_chosen id) d = record d { identity_id = id }
  handle (environment_chosen id) d = record d { environment_id = id }
  handle (keys_chosen keys) d = record d { secret_keys = keys }
  handle (expiry_chosen expires_at) d = record d { expires_at = expires_at }
  handle submitted d = (submit_token iso project_id d).0
  handle (answered token) d = minted_as token d
  handle (refused message) d = not_minted message d
  handle (copied value) d = mark_copied value d

  -- A token arrives while the dialog is open.
  abbrev pub IsTimely : Event → TokenDialog → Type 0
  IsTimely (answered token) d = d.is_open ≡ true
  IsTimely (open_changed next) d = Unit
  IsTimely (named name) d = Unit
  IsTimely (identity_chosen id) d = Unit
  IsTimely (environment_chosen id) d = Unit
  IsTimely (keys_chosen keys) d = Unit
  IsTimely (expiry_chosen expires_at) d = Unit
  IsTimely submitted d = Unit
  IsTimely (refused message) d = Unit
  IsTimely (copied value) d = Unit

  -- A token is held by an open dialog only.
  abbrev pub IsHeldOpen : TokenDialog → Type 0
  IsHeldOpen d = (d.is_open ≡ true) ⊎ (d.minted ≡ none)

  sent-IsHeldOpen :
      (d : TokenDialog) (e : Option Text)
      → IsHeldOpen d
      → IsHeldOpen (send_token iso project_id d e).0
  unfolding send_token
  sent-IsHeldOpen d none h = h
  sent-IsHeldOpen d (some expires_at) h = h

  handle-IsHeldOpen :
      (e : Event) (d : TokenDialog) → IsTimely e d → IsHeldOpen d → IsHeldOpen (handle e d)
  unfolding handle change_open close submit_token minted_as not_minted mark_copied
  handle-IsHeldOpen (open_changed true) d timely h = inl refl
  handle-IsHeldOpen (open_changed false) d timely h = inr refl
  handle-IsHeldOpen (named name) d timely h = h
  handle-IsHeldOpen (identity_chosen id) d timely h = h
  handle-IsHeldOpen (environment_chosen id) d timely h = h
  handle-IsHeldOpen (keys_chosen keys) d timely h = h
  handle-IsHeldOpen (expiry_chosen expires_at) d timely h = h
  handle-IsHeldOpen submitted d timely h = sent-IsHeldOpen d (expiry_of iso d.expires_at) h
  handle-IsHeldOpen (answered token) d timely h = inl timely
  handle-IsHeldOpen (refused message) d timely h = h
  handle-IsHeldOpen (copied value) d timely h = h

  -- As long as no token arrives at a closed dialog, a dialog that is closed holds none, in whatever
  -- order it is opened, filled in, submitted, answered, copied from and closed.
  pub runs-IsHeldOpen :
      (events : List Event) (environments : List Text)
      → AllFit handle IsTimely events (unopened environments)
      → IsHeldOpen (runs handle events (unopened environments))
  unfolding unopened
  runs-IsHeldOpen events environments timely =
      runs_keep_fit handle IsTimely IsHeldOpen handle-IsHeldOpen events (unopened environments)
        timely (inr refl)
