-- ===== src/Screens/Login.antt =====
-- web/components/login-form.tsx: sign-in with a password, a passkey, or a recovery code; and
-- `describePasskeyError` of web/lib/webauthn.ts. The browser's credential prompt is a parameter.
pub mod Cleared
pub mod Confirmed
use warder.Base.{
  ℕ, ◌+◌, ◌≡◌, Bool, true, false, ◌&&◌, ◌||◌, not, Option, none, some, List, [], ◌∷◌, Text, lit,
  text_eq, is_empty, leb, ltb, if◌then◌else◌, Json, null, bool, num, str, arr, obj, no_fields,
  object, prop?, or_else, truthy,
}
use mathlib.Core.Option
use warder.ClientApi.{ClientReply, rejected, replied}

-- `signed_in` counts how often the form has moved on to the projects.
pub record Login : Type 0 where
  pub email : Text
  pub password : Text
  pub error : Option Json
  pub pending : Bool
  pub pending_token : Option Text
  pub using_code : Bool
  pub recovery_code : Text
  pub signed_in : ℕ

-- What is thrown: an error with its message, or a `DOMException` with its name and its message.
pub data Thrown : Type 0 where
  error_of : Json → Thrown
  dom : Text → Text → Thrown

pub data Result {ℓ} (A : Type ℓ) : Type ℓ where
  returned : A → Result A
  thrown : Thrown → Result A

infixl 5 ◌>>=◌
abbrev pub ◌>>=◌ {ℓ κ} : {A : Type ℓ} {B : Type κ} → Result A → (A → Result B) → Result B
returned a >>= f = f a
thrown e >>= f = thrown e

unfoldable pub sign_in_failed : Json
sign_in_failed = str (lit "Sign-in failed.")

-- `payload?.error?.message ?? "Sign-in failed."`
unfoldable pub message_of : Option Json → Json
unfolding sign_in_failed
message_of payload = or_else (prop? (lit "message") (prop? (lit "error") payload)) sign_in_failed

unfoldable pub is_ok : ℕ → Bool
is_ok status = leb 200 status && ltb status 300

-- `post`, of the reply of `fetch`; `offline` is the message of the error when it rejects.
unfoldable pub posted : Json → ClientReply → Result (Option Json)
unfolding is_ok message_of
posted offline rejected = thrown (error_of offline)
posted offline (replied status payload) =
    if is_ok status then returned payload else thrown (error_of (message_of payload))

unfoldable pub describe_passkey_error : Thrown → Json
describe_passkey_error (error_of message) = message
describe_passkey_error (dom name message) =
    if text_eq name (lit "NotAllowedError")
    then str (lit "No passkey was used. The prompt was dismissed or timed out.")
    else if text_eq name (lit "InvalidStateError")
    then str (lit "That passkey is already registered on this account.")
    else if text_eq name (lit "SecurityError")
    then str (lit "This page's address does not match where the passkey was registered.")
    else if text_eq name (lit "AbortError")
    then str (lit "The passkey prompt was cancelled.")
    else str message

-- `signedIn`
unfoldable pub move_on : Login → Login
move_on s = record s { signed_in = s.signed_in + 1 }

unfoldable pub waiting : Login → Login
waiting s = record s { error = none; pending = true }

-- `onSubmit`: the body of its request, and the state with the answer.
unfoldable pub login_body : Login → Json
login_body s =
    object ((lit "email", some (str s.email)) ∷ (lit "password", some (str s.password)) ∷ [])

unfoldable pub take_token : Option Json → Login → Login
unfolding move_on
take_token (some (str token)) s = record s { pending_token = some token }
take_token (some null) s = move_on s
take_token (some (bool b)) s = move_on s
take_token (some (num n)) s = move_on s
take_token (some (arr vs)) s = move_on s
take_token (some (obj fs)) s = move_on s
take_token none s = move_on s

unfoldable pub accepted : Option Json → Login → Login
unfolding take_token move_on
accepted payload s =
    if truthy (prop? (lit "mfaRequired") payload)
    then take_token (prop? (lit "pendingToken") payload) s
    else move_on s

unfoldable pub answered : ClientReply → Login → Login
unfolding is_ok message_of accepted
answered rejected s = record s { error = some (str (lit "Could not reach the server.")) }
answered (replied status payload) s =
    if is_ok status then accepted payload s else record s { error = some (message_of payload) }

unfoldable pub submitted : ClientReply → Login → Login
unfolding answered
submitted reply s = record (answered reply s) { password = []; pending = false }

-- A ceremony: the request that begins it, the prompt with its answer, the request that finishes it. The
-- replies may depend on what is sent.
module _ (offline : Json) (post : Text → Json → ClientReply)
    (prompt : Option Json → Result Json) where
  unfoldable pub confirm : Text → Result (Option Json)
  unfolding posted
  confirm token =
      posted offline (
        post (lit "/api/auth/passkeys/assert/begin")
          (object ((lit "pendingToken", some (str token)) ∷ [])))
      >>= λ options. prompt options >>= λ credential. posted offline (
          post (lit "/api/auth/passkeys/assert/finish") (
            object
              ((lit "pendingToken", some (str token)) ∷ (lit "credential", some credential) ∷ [])))

  unfoldable pub finish_body : Option Json → Json → Json
  finish_body handle credential = object (
      (lit "handle", handle)
      ∷ (lit "kind", some (str (lit "browser")))
      ∷ (lit "credential", some credential)
      ∷ [])

  -- `begun.options` of an answer that is not an object with fields, which the source takes it to be.
  unfoldable pub discover : Result (Option Json)
  unfolding posted finish_body
  discover =
      posted offline (post (lit "/api/auth/passkeys/signin/begin") (obj no_fields)) >>= λ begun.
      prompt (prop? (lit "options") begun) >>= λ credential. posted offline (
        post (lit "/api/auth/passkeys/signin/finish")
          (finish_body (prop? (lit "handle") begun) credential))

-- The end of a ceremony.
unfoldable pub settled : Result (Option Json) → Login → Login
unfolding move_on describe_passkey_error
settled (returned payload) s = record (move_on s) { pending = false }
settled (thrown e) s = record s { error = some (describe_passkey_error e); pending = false }

-- The message of an exception that is an `Error`.
unfoldable pub thrown_message : Thrown → Json
thrown_message (error_of message) = message
thrown_message (dom name message) = str message

-- `confirmWithRecoveryCode`
unfoldable pub code_body : Text → Text → Json
code_body token code =
    object ((lit "pendingToken", some (str token)) ∷ (lit "recoveryCode", some (str code)) ∷ [])

unfoldable pub code_settled : Result (Option Json) → Login → Login
unfolding move_on thrown_message
code_settled (returned payload) s = record (move_on s) { recovery_code = []; pending = false }
code_settled (thrown e) s = record s {
  error = some (thrown_message e);
  recovery_code = [];
  pending = false;
}

unfoldable pub start_over : Login → Login
start_over s = record s {
  pending_token = none;
  using_code = false;
  recovery_code = [];
  error = none;
}

unfoldable pub choose_method : Bool → Login → Login
choose_method code s = record s { using_code = code; error = none }

-- Which of its three forms is on screen.
pub data Stage : Type 0 where
  credentials passkey code : Stage

unfoldable pub stage : Login → Stage
stage s = elim s.pending_token [
  | none ↦ credentials
  | some token ↦ if is_empty token then credentials else if s.using_code then code else passkey
]
