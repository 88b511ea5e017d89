-- ===== src/Screens/CreateToken.antt =====
-- web/components/create-token-dialog.tsx: the dialog that makes a runtime token and shows it once.
pub mod Held
use mathlib.Core.Option
use warder.Base.{
  Bool, true, false, Option, none, some, List, [], ◌∷◌, ◌++◌, map, Text, lit, is_empty,
  if◌then◌else◌, Json, str, arr, object, array_of,
}
use warder.Screens.Shared.{Call, expiry_of}

pub record TokenDialog : Type 0 where
  pub is_open : Bool
  pub name : Text
  pub identity_id : Text
  pub environment_id : Text
  pub secret_keys : List Text
  pub expires_at : Text
  pub error : Option Text
  pub pending : Bool
  pub minted : Option Text
  pub copied : Bool

-- The dialog on the page; `environments` are the ids of the project's environments.
unfoldable pub first_id : List Text → Text
first_id [] = []
first_id (id ∷ ids) = id

unfoldable pub unopened : List Text → TokenDialog
unfolding first_id
unopened environments = record {
  is_open = false;
  name = [];
  identity_id = [];
  environment_id = first_id environments;
  secret_keys = [];
  expires_at = [];
  error = none;
  pending = false;
  minted = none;
  copied = false;
}

unfoldable pub close : TokenDialog → TokenDialog
close d = record d {
  is_open = false;
  minted = none;
  copied = false;
  name = [];
  secret_keys = [];
  expires_at = [];
  error = none;
}

-- `onOpenChange`
unfoldable pub change_open : Bool → TokenDialog → TokenDialog
unfolding close
change_open next d = if next then record d { is_open = true } else close d

module _ (iso : Text → Option Text) (project_id : Text) where
  unfoldable pub token_body : TokenDialog → Text → Json
  token_body d expires_at = object (
      (lit "identityId", some (str d.identity_id))
      ∷ (lit "name", some (str d.name))
      ∷ (lit "environmentId", some (str d.environment_id))
      ∷ (lit "capabilities", some (arr (array_of (str (lit "USE_SECRET") ∷ []))))
      ∷ (lit "secretKeys", some (arr (array_of (map str d.secret_keys))))
      ∷ (lit "expiresAt", some (str expires_at))
      ∷ [])

  unfoldable pub token_call : TokenDialog → Text → Call
  unfolding token_body
  token_call d expires_at = record {
    path = lit "/api/projects/" ++ (project_id ++ lit "/tokens");
    options = record { method = some (lit "POST"); body = some (token_body d expires_at) };
  }

  -- `none` is the exception of an expiry that cannot be written.
  unfoldable pub send_token : TokenDialog → Option Text → TokenDialog × Option Call
  unfolding token_call
  send_token d none = (record d { error = some (lit "Invalid time value"); pending = false }, none)
  send_token d (some expires_at) =
      (record d { error = none; pending = true }, some (token_call d expires_at))

  unfoldable pub submit_token : TokenDialog → TokenDialog × Option Call
  unfolding send_token
  submit_token d = send_token d (expiry_of iso d.expires_at)

-- The answer: the token, or the message of the exception.
unfoldable pub minted_as : Text → TokenDialog → TokenDialog
minted_as token d = record d { minted = some token; pending = false }

unfoldable pub not_minted : Text → TokenDialog → TokenDialog
not_minted message d = record d { error = some message; pending = false }

-- What `copy` writes to the clipboard, if it does.
unfoldable pub clip : TokenDialog → Option Text
clip d = elim d.minted [ none ↦ none | some token ↦ if is_empty token then none else some token ]

-- The clipboard has it, and two seconds later.
unfoldable pub mark_copied : Bool → TokenDialog → TokenDialog
mark_copied value d = record d { copied = value }
