-- ===== src/Screens/SignUp.antt =====
-- web/components/signup-form.tsx: the form that creates an organization and shows its recovery codes once.
pub mod Bounds
use mathlib.Core.Option
use warder.Base.{
  ℕ, ◌+◌, Bool, true, false, not, Option, none, some, List, [], ◌∷◌, ◌++◌, Text, lit, length, leb,
  number_text, if◌then◌else◌, Json, str, object,
}
use warder.Screens.Shared.{Call}

abbrev pub min_password_length : ℕ
min_password_length = 12

-- `left` counts how often the form has moved on to the welcome page.
pub record SignUpForm : Type 0 where
  pub name : Text
  pub email : Text
  pub password : Text
  pub error : Option Text
  pub field_errors : List (Text × Text)
  pub pending : Bool
  pub codes : Option (List Text)
  pub acknowledged : Bool
  pub left : ℕ

unfoldable pub long_enough : Text → Bool
long_enough password = leb min_password_length (length password)

unfoldable pub signup_call : SignUpForm → Call
signup_call s = record {
  path = lit "/api/auth/signup";
  options = record {
    method = some (lit "POST");
    body = some (
        object (
          (lit "name", some (str s.name))
          ∷ (lit "email", some (str s.email))
          ∷ (lit "password", some (str s.password))
          ∷ []));
  };
}

-- The message of a password that is too short.
unfoldable pub too_short : Text
too_short = lit "Use at least " ++ (number_text min_password_length ++ lit " characters.")

unfoldable pub submit_signup : SignUpForm → SignUpForm × Option Call
unfolding long_enough signup_call too_short
submit_signup s =
    if long_enough s.password
    then (record s { error = none; field_errors = []; pending = true }, some (signup_call s))
    else (record s { error = none; field_errors = (lit "password", too_short) ∷ [] }, none)

-- The answer: the account with its codes, or the message of an exception, with the details of an
-- `ApiError` that has some.
unfoldable pub signed_up : Option (List Text) → SignUpForm → SignUpForm
signed_up codes s = record s {
  codes = some (Option.get_or codes []);
  password = [];
  pending = false;
}

unfoldable pub not_signed_up : Option (List (Text × Text)) → Text → SignUpForm → SignUpForm
not_signed_up details message s = record s {
  field_errors = Option.get_or details s.field_errors;
  error = some message;
  password = [];
  pending = false;
}

-- `Continue`, which is there once the codes are, and enabled once they are acknowledged.
unfoldable pub continue_on : SignUpForm → SignUpForm
continue_on s = elim s.codes [
  | none ↦ s
  | some codes ↦ if s.acknowledged then record s { left = s.left + 1 } else s
]
