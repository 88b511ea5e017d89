-- ===== src/RouteHelpers.antt =====
-- web/lib/route-helpers.ts: what every route of the web application is wrapped in, and the reading
-- of request bodies.
pub mod Guard
pub mod Safe
pub mod Reading
use warder.Base.{
  ℕ, zero, suc, ◌≡◌, Bool, true, false, ◌&&◌, ◌||◌, not, Option, none, some, List, [], ◌∷◌, ◌++◌,
  Text, lit, is_empty, trim, length, all, leb, ltb, ◌==◌, if◌then◌else◌, Json, null, bool, num, str,
  arr, obj, Items, no_items, Fields, items, object, field?, or_else,
}
use warder.Csrf.{assert_csrf}
use warder.World.{
  Host, World, Request, Outcome, ok, err, M, ◌>>=◌, ◌>>◌, pure, throw, throw_if, Failure, csrf,
  not_authenticated, core, misconfigured, unexpected,
}

pub record Response : Type 0 where
  pub status : ℕ
  pub body : Json
  pub cache_control : Text

unfoldable pub json_response : Json → ℕ → Response
json_response body status = record {
  status = status;
  body = body;
  cache_control = lit "no-store, must-revalidate";
}

abbrev pub error_body : Json → Json → Option Json → Json
error_body code message details = object (
    (
      lit "error",
      some (
          object (
            (lit "code", some code)
            ∷ (lit "message", some message)
            ∷ (lit "details", details)
            ∷ [])),
    )
    ∷ [])

unfoldable pub error_response : Failure → Response
unfolding json_response
error_response not_authenticated =
    json_response
      (error_body (str (lit "unauthorized")) (str (lit "Your session has ended. Sign in again."))
        none)
      401
error_response (csrf message) =
    json_response (error_body (str (lit "csrf_failed")) (str message) none) 403
error_response (core status code message details) =
    json_response (error_body code message details) status
error_response (misconfigured r) =
    json_response
      (error_body (str (lit "internal_error")) (str (lit "Something went wrong. Try again.")) none)
      500
error_response unexpected =
    json_response
      (error_body (str (lit "internal_error")) (str (lit "Something went wrong. Try again.")) none)
      500

abbrev pub Handler : Type 0
Handler = M (Option Json)

-- The `try` of both wrappers: the result, or the failure, as a response.
unfoldable pub respond : Outcome (Option Json) → Response × World
unfolding json_response error_response
respond (ok result w) =
    (json_response (or_else result (object ((lit "ok", some (bool true)) ∷ []))) 200, w)
respond (err e w) = (error_response e, w)

unfoldable pub handle_route : Host → Request → Handler → World → Response × World
unfolding respond
handle_route host request handler w = respond ((assert_csrf host request >> handler) w)

unfoldable pub handle_pre_auth_route : Handler → World → Response × World
unfolding respond
handle_pre_auth_route handler w = respond (handler w)

abbrev pub invalid_request : Text → Failure
invalid_request message = core 400 (str (lit "invalid_request")) (str message) none

abbrev pub bad_request : Failure
bad_request = core 400 (str (lit "bad_request")) (str (lit "The request could not be read.")) none

-- `readJson`: an object, and nothing else.
unfoldable pub fields_or_fail : Option Json → M Fields
fields_or_fail (some (obj fs)) = pure fs
fields_or_fail (some null) = throw bad_request
fields_or_fail (some (bool b)) = throw bad_request
fields_or_fail (some (num n)) = throw bad_request
fields_or_fail (some (str s)) = throw bad_request
fields_or_fail (some (arr vs)) = throw bad_request
fields_or_fail none = throw bad_request

unfoldable pub read_json : Request → M Fields
unfolding fields_or_fail
read_json request = fields_or_fail request.json

-- A trimmed text within the bound.
unfoldable pub bounded : Text → Text → ℕ → M Text
bounded name trimmed max_length = do
  throw_if (ltb max_length (length trimmed)) (invalid_request (name ++ lit " is too long."))
  pure trimmed

abbrev pub is_required : Text → Failure
is_required name = invalid_request (name ++ lit " is required.")

abbrev pub is_not_valid : Text → Failure
is_not_valid name = invalid_request (name ++ lit " is not valid.")

unfoldable pub required_text : Text → Option Json → ℕ → M Text
unfolding bounded
required_text name (some (str s)) max_length = do
  throw_if (is_empty (trim s)) (is_required name)
  bounded name (trim s) max_length
required_text name (some null) max_length = throw (is_required name)
required_text name (some (bool b)) max_length = throw (is_required name)
required_text name (some (num n)) max_length = throw (is_required name)
required_text name (some (arr vs)) max_length = throw (is_required name)
required_text name (some (obj fs)) max_length = throw (is_required name)
required_text name none max_length = throw (is_required name)

unfoldable pub require_string : Fields → Text → ℕ → M Text
unfolding required_text
require_string body name max_length = required_text name (field? name body) max_length

unfoldable pub optional_text : Text → Option Json → ℕ → M Text
unfolding bounded
optional_text name none max_length = pure []
optional_text name (some null) max_length = pure []
optional_text name (some (str s)) max_length =
    if is_empty s then pure [] else bounded name (trim s) max_length
optional_text name (some (bool b)) max_length = throw (is_not_valid name)
optional_text name (some (num n)) max_length = throw (is_not_valid name)
optional_text name (some (arr vs)) max_length = throw (is_not_valid name)
optional_text name (some (obj fs)) max_length = throw (is_not_valid name)

unfoldable pub optional_string : Fields → Text → ℕ → M Text
unfolding optional_text
optional_string body name max_length = optional_text name (field? name body) max_length

abbrev pub is_text : Json → Bool
is_text (str s) = true
is_text null = false
is_text (bool b) = false
is_text (num n) = false
is_text (arr vs) = false
is_text (obj fs) = false

unfoldable pub list_value : Text → Option Json → ℕ → M Items
list_value name none max_items = pure no_items
list_value name (some null) max_items = pure no_items
list_value name (some (arr vs)) max_items = do
  throw_if (not (all is_text (items vs))) (is_not_valid name)
  throw_if (ltb max_items (length (items vs)))
      (invalid_request (name ++ lit " has too many entries."))
  pure vs
list_value name (some (bool b)) max_items = throw (is_not_valid name)
list_value name (some (num n)) max_items = throw (is_not_valid name)
list_value name (some (str s)) max_items = throw (is_not_valid name)
list_value name (some (obj fs)) max_items = throw (is_not_valid name)

unfoldable pub string_list : Fields → Text → ℕ → M Items
unfolding list_value
string_list body name max_items = list_value name (field? name body) max_items
