-- ===== src/Screens/Recovery.antt =====
-- web/components/forgot-password-form.tsx and web/components/redeem-recovery-form.tsx: a new password,
-- with a recovery code or with the token of a link.
use mathlib.Core.Option
use warder.Base.{
  ℕ, Bool, true, false, Option, none, some, List, [], ◌∷◌, Text, lit, is_empty, if◌then◌else◌, Json,
  str, object,
}
use warder.Screens.AcceptInvitation.{fragment_of}
use warder.Screens.Shared.{Call}

unfoldable pub json_call : Text → Json → Call
json_call path body = record {
  path = path;
  options = record { method = some (lit "POST"); body = some body };
}

pub record ForgotForm : Type 0 where
  pub email : Text
  pub recovery_code : Text
  pub new_password : Text
  pub error : Option Text
  pub field_errors : List (Text × Text)
  pub pending : Bool
  pub remaining : Option ℕ

unfoldable pub reset_call : ForgotForm → Call
unfolding json_call
reset_call s = json_call (lit "/api/auth/password/reset") (
    object (
      (lit "email", some (str s.email))
      ∷ (lit "recoveryCode", some (str s.recovery_code))
      ∷ (lit "newPassword", some (str s.new_password))
      ∷ []))

unfoldable pub submit_reset : ForgotForm → ForgotForm × Call
unfolding reset_call
submit_reset s = (record s { error = none; field_errors = []; pending = true }, reset_call s)

-- Once the password is set the form stays busy: another screen takes its place.
unfoldable pub was_reset : ℕ → ForgotForm → ForgotForm
was_reset remaining s = record s { remaining = some remaining; new_password = [] }

unfoldable pub not_reset : Option (List (Text × Text)) → Text → ForgotForm → ForgotForm
not_reset details message s = record s {
  field_errors = Option.get_or details s.field_errors;
  error = some message;
  pending = false;
  new_password = [];
}

pub record RedeemForm : Type 0 where
  pub hash : Text
  pub token : Option Text
  pub ready : Bool
  pub new_password : Text
  pub error : Option Text
  pub field_errors : List (Text × Text)
  pub pending : Bool
  pub done : Option Text
  pub passkeys_removed : ℕ

-- The effect of the first render.
unfoldable pub read_link : RedeemForm → RedeemForm
unfolding fragment_of
read_link s =
    if is_empty (fragment_of s.hash)
    then record s { ready = true }
    else record s { token = some (fragment_of s.hash); hash = []; ready = true }

unfoldable pub recover_call : Text → RedeemForm → Call
unfolding json_call
recover_call token s =
    json_call (lit "/api/auth/password/recover") (
      object
        ((lit "token", some (str token)) ∷ (lit "newPassword", some (str s.new_password)) ∷ []))

unfoldable pub submit_redeem : RedeemForm → RedeemForm × Option Call
unfolding recover_call
submit_redeem s =
    let token = Option.get_or s.token [] in
    if is_empty token
    then (
      record s {
        error = some (lit "This link is missing its token. Ask for a new one.");
        field_errors = [];
      },
      none,
    )
    else (record s { error = none; field_errors = []; pending = true }, some (recover_call token s))

unfoldable pub redeemed : Text → Option ℕ → RedeemForm → RedeemForm
redeemed email removed s = record s {
  done = some email;
  passkeys_removed = Option.get_or removed 0;
  new_password = [];
}

unfoldable pub not_redeemed : Option (List (Text × Text)) → Text → RedeemForm → RedeemForm
not_redeemed details message s = record s {
  field_errors = Option.get_or details s.field_errors;
  error = some message;
  pending = false;
  new_password = [];
}
