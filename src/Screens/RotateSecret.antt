-- ===== src/Screens/RotateSecret.antt =====
-- web/components/rotate-secret-dialog.tsx and web/components/change-expiry-dialog.tsx: a new value for a
-- secret, or a new expiry for the value it has.
use warder.Base.{
  Bool, true, false, Option, none, some, [], ◌∷◌, ◌++◌, Text, lit, if◌then◌else◌, str, object,
}
use warder.Screens.Recovery.{json_call}
use warder.Screens.Shared.{Call, expiry_of}

pub record RotateDialog : Type 0 where
  pub is_open : Bool
  pub value : Text
  pub error : Option Text
  pub pending : Bool

unfoldable pub change_rotate_open : Bool → RotateDialog → RotateDialog
change_rotate_open next d =
    if next
    then record d { is_open = true }
    else record d { is_open = false; value = []; error = none }

-- The Cancel button.
unfoldable pub cancel_rotate : RotateDialog → RotateDialog
cancel_rotate d = record d { is_open = false }

unfoldable pub submit_rotate : Text → RotateDialog → RotateDialog × Call
unfolding json_call
submit_rotate secret_id d = (
  record d { error = none; pending = true },
  json_call (lit "/api/secrets/" ++ (secret_id ++ lit "/rotate"))
      (object ((lit "value", some (str d.value)) ∷ [])),
)

unfoldable pub rotated : RotateDialog → RotateDialog
rotated d = record d { is_open = false; value = []; pending = false }

unfoldable pub not_rotated : Text → RotateDialog → RotateDialog
not_rotated message d = record d { error = some message; value = []; pending = false }

pub record ExpiryDialog : Type 0 where
  pub is_open : Bool
  pub pending : Bool
  pub error : Option Text
  pub expires_at : Text

-- While a request is awaited the dialog neither opens nor closes.
unfoldable pub change_expiry_open : Bool → ExpiryDialog → ExpiryDialog
change_expiry_open next d = if d.pending then d else record d { is_open = next }

unfoldable pub send_expiry : Text → ExpiryDialog → Option Text → ExpiryDialog × Option Call
unfolding json_call
send_expiry secret_id d none =
    (record d { error = some (lit "Invalid time value"); pending = false }, none)
send_expiry secret_id d (some expires_at) = (
  record d { error = none; pending = true },
  some (
      json_call (lit "/api/secrets/" ++ (secret_id ++ lit "/expiry"))
        (object ((lit "expiresAt", some (str expires_at)) ∷ []))),
)

unfoldable pub submit_expiry :
    (Text → Option Text) → Text → ExpiryDialog → ExpiryDialog × Option Call
unfolding send_expiry
submit_expiry iso secret_id d = send_expiry secret_id d (expiry_of iso d.expires_at)

unfoldable pub expiry_changed : ExpiryDialog → ExpiryDialog
expiry_changed d = record d { is_open = false; pending = false }

unfoldable pub expiry_not_changed : Text → ExpiryDialog → ExpiryDialog
expiry_not_changed message d = record d { error = some message; pending = false }
