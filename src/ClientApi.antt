-- ===== src/ClientApi.antt =====
-- web/lib/client-api.ts: how the browser calls the routes.
pub mod Finding
pub mod Echo
use mathlib.Core.Option
use warder.Base.{
  ℕ, Bool, ◌&&◌, ◌||◌, Option, none, some, [], ◌∷◌, Text, lit, text_eq, strip_prefix, is_empty, leb,
  ltb, ◌==◌, if◌then◌else◌, decode_uri_component, Json, null, str, prop?, or_else,
}

-- `[^;]*`
unfoldable pub until_semicolon : Text → Text
until_semicolon [] = []
until_semicolon (c ∷ s) = if c == b';' then [] else c ∷ until_semicolon s

-- The leftmost match of the pattern behind the start of the text.
unfoldable pub later_token : Text → Option Text
unfolding until_semicolon
later_token [] = none
later_token (c ∷ s) =
    let later = later_token s in
    elim (strip_prefix (lit "; warder_csrf=") (c ∷ s)) [
      | some rest ↦ some (until_semicolon rest)
      | none ↦ later
    ]

-- `document.cookie.match(...)?.[1]`
unfoldable pub cookie_token : Text → Option Text
unfolding later_token
cookie_token cookie = elim (strip_prefix (lit "warder_csrf=") cookie) [
  | some rest ↦ some (until_semicolon rest)
  | none ↦ later_token cookie
]

-- `none` is the `URIError` of `decodeURIComponent`.
unfoldable pub read_csrf_token : Text → Option Text
unfolding cookie_token
read_csrf_token cookie = elim (cookie_token cookie) [
  | none ↦ some []
  | some token ↦ if is_empty token then some [] else decode_uri_component token
]

pub record ClientRequest : Type 0 where
  pub path : Text
  pub method : Text
  pub csrf_token : Option Text
  pub content_type : Option Text
  pub body : Option Json

pub record ClientOptions : Type 0 where
  pub method : Option Text
  pub body : Option Json

-- What `fetch` of the browser answers; the payload is `none` if the body is not JSON.
pub data ClientReply : Type 0 where
  rejected : ClientReply
  replied : ℕ → Option Json → ClientReply

-- How a call ends: with its payload, an `ApiError`, an `ApiError` with the browser sent to `/login`,
-- or another exception.
pub data Ending : Type 0 where
  returned : Json → Ending
  api_error : ℕ → Json → Json → Option Json → Ending
  session_ended : Ending
  exception : Ending

unfoldable pub is_reading : Text → Bool
is_reading method = text_eq method (lit "GET") || text_eq method (lit "HEAD")

-- The token header of the call: none on a reading method.
unfoldable pub token_header : Text → Text → Option (Option Text)
unfolding is_reading
token_header method cookie =
    if is_reading method
    then some none
    else Option.map (λ token. some token) (read_csrf_token cookie)

unfoldable pub client_request : Text → ClientOptions → Option Text → ClientRequest
client_request path options token = record {
  path = path;
  method = Option.get_or options.method (lit "GET");
  csrf_token = token;
  content_type = Option.map (λ _. lit "application/json") options.body;
  body = options.body;
}

unfoldable pub client_payload : ℕ → Option Json → Json
client_payload status payload = if status == 204 then null else Option.get_or payload null

unfoldable pub client_failure : ℕ → Option Json → Ending
client_failure status error =
    api_error status (or_else (prop? (lit "code") error) (str (lit "request_failed")))
      (or_else (prop? (lit "message") error) (str (lit "The request could not be completed.")))
      (prop? (lit "details") error)

unfoldable pub ending_of : ClientReply → Ending
unfolding client_payload client_failure
ending_of rejected = exception
ending_of (replied status payload) =
    if status == 401
    then session_ended
    else if leb 200 status && ltb status 300
    then returned (client_payload status payload)
    else client_failure status (prop? (lit "error") (some (client_payload status payload)))

-- The request that is sent, if one is, and how the call ends. `cookie` is `document.cookie`.
unfoldable pub api_fetch :
    (ClientRequest → ClientReply) → Text → Text → ClientOptions → Option ClientRequest × Ending
unfolding token_header client_request ending_of
api_fetch fetch cookie path options =
    elim (token_header (Option.get_or options.method (lit "GET")) cookie) [
      | none ↦ (none, exception)
      | some token ↦ (
        some (client_request path options token),
        ending_of (fetch (client_request path options token)),
      )
    ]
