-- ===== src/RouteHelpers/Safe.antt =====
-- The helpers of the routes make no call by themselves.
use warder.Base.{
  ℕ, ◌≡◌, refl, Option, none, some, Text, Json, null, bool, num, str, arr, obj, Fields, field?,
  Bool-cases, inl, inr,
}
use warder.CoreApi.Calls.{
  IsSound, Preserves, IsSafe, Preserves-IsSafe, safe, >>=-IsSafe, pure-IsSafe, throw-IsSafe,
  connection-IsSafe, call_core_api-IsSafe,
}
use warder.Connection.{Connection}
use warder.Csrf.{
  check_origin, assert_same_origin, check_token, check_token_of, assert_csrf, origin_matches,
}
use warder.Env.{connection}
use warder.RouteHelpers.{
  Handler, respond, handle_route, handle_pre_auth_route, fields_or_fail, read_json, bounded,
  required_text, require_string, optional_text, optional_string, list_value, string_list,
}
use warder.Session.{
  get_csrf_token, get_session_token, end_session, delete_cookie, set_cookie, secure_cookies,
  generate_csrf_token, start_session,
}
use warder.Uuid.{is_uuid, require_id}
use warder.World.{Host, World, Request, Cookie, Outcome, ok, err, final, ◌>>◌}

module _ (host : Host) where
  get_csrf_token-IsSafe : IsSafe host get_csrf_token
  unfolding get_csrf_token
  get_csrf_token-IsSafe = Preserves-IsSafe host get_csrf_token λ w s. s

  pub get_session_token-IsSafe : IsSafe host get_session_token
  unfolding get_session_token
  get_session_token-IsSafe = Preserves-IsSafe host get_session_token λ w s. s

  check_token_of-IsSafe :
      (t : Option Text) (request : Request) → IsSafe host (check_token_of t request)
  unfolding check_token_of
  check_token_of-IsSafe t request = search safe

  check_token-IsSafe : (request : Request) → IsSafe host (check_token request)
  unfolding check_token
  check_token-IsSafe request =
      >>=-IsSafe host get_csrf_token-IsSafe λ t. check_token_of-IsSafe t request

  check_origin-IsSafe : (request : Request) → IsSafe host (check_origin host request)
  unfolding check_origin origin_matches
  check_origin-IsSafe request = search safe

  pub assert_same_origin-IsSafe :
      (request : Request) → IsSafe host (assert_same_origin host request)
  unfolding assert_same_origin
  assert_same_origin-IsSafe request = search (safe, check_origin-IsSafe)

  pub assert_csrf-IsSafe : (request : Request) → IsSafe host (assert_csrf host request)
  unfolding assert_csrf
  assert_csrf-IsSafe request = search (safe, assert_same_origin-IsSafe, check_token-IsSafe)

  set_cookie-IsSafe : (k : Text) (c : Cookie) → IsSafe host (set_cookie k c)
  unfolding set_cookie
  set_cookie-IsSafe k c =
      Preserves-IsSafe host (set_cookie k c) λ w s. record { fresh = s.fresh; own = s.own }

  delete_cookie-IsSafe : (k : Text) → IsSafe host (delete_cookie k)
  unfolding delete_cookie
  delete_cookie-IsSafe k =
      Preserves-IsSafe host (delete_cookie k) λ w s. record { fresh = s.fresh; own = s.own }

  pub end_session-IsSafe : IsSafe host end_session
  unfolding end_session
  end_session-IsSafe = search (safe, delete_cookie-IsSafe)

  generate_csrf_token-IsSafe : IsSafe host (generate_csrf_token host)
  unfolding generate_csrf_token
  generate_csrf_token-IsSafe =
      Preserves-IsSafe host (generate_csrf_token host)
        λ w s. record { fresh = s.fresh; own = s.own }

  secure-Preserves :
      (w : World) (o : Outcome Connection)
      → connection host w ≡ o
      → Preserves host w (final (secure_cookies host w))
  unfolding secure_cookies
  secure-Preserves w (ok c v) e s =
      rw (e, secure_cookies, final) (rw e at ((connection-IsSafe host).moves w s))
  secure-Preserves w (err f v) e s =
      rw (e, secure_cookies, final) (rw e at ((connection-IsSafe host).moves w s))

  secure_cookies-IsSafe : IsSafe host (secure_cookies host)
  secure_cookies-IsSafe =
      Preserves-IsSafe host (secure_cookies host) λ w. secure-Preserves w (connection host w) refl

  pub start_session-IsSafe :
      (token : Option Json) (expires_at : Option ℕ)
      → IsSafe host (start_session host token expires_at)
  unfolding start_session
  start_session-IsSafe token expires_at =
      search (safe, secure_cookies-IsSafe, set_cookie-IsSafe, generate_csrf_token-IsSafe)

  fields_or_fail-IsSafe : (v : Option Json) → IsSafe host (fields_or_fail v)
  unfolding fields_or_fail
  fields_or_fail-IsSafe (some (obj fs)) = search safe
  fields_or_fail-IsSafe (some null) = search safe
  fields_or_fail-IsSafe (some (bool b)) = search safe
  fields_or_fail-IsSafe (some (num n)) = search safe
  fields_or_fail-IsSafe (some (str s)) = search safe
  fields_or_fail-IsSafe (some (arr vs)) = search safe
  fields_or_fail-IsSafe none = search safe

  pub read_json-IsSafe : (request : Request) → IsSafe host (read_json request)
  unfolding read_json
  read_json-IsSafe request = fields_or_fail-IsSafe request.json

  bounded-IsSafe : (name t : Text) (n : ℕ) → IsSafe host (bounded name t n)
  unfolding bounded
  bounded-IsSafe name t n = search safe

  required_text-IsSafe :
      (name : Text) (v : Option Json) (n : ℕ) → IsSafe host (required_text name v n)
  unfolding required_text
  required_text-IsSafe name (some (str s)) n = search (safe, bounded-IsSafe)
  required_text-IsSafe name (some null) n = search safe
  required_text-IsSafe name (some (bool b)) n = search safe
  required_text-IsSafe name (some (num m)) n = search safe
  required_text-IsSafe name (some (arr vs)) n = search safe
  required_text-IsSafe name (some (obj fs)) n = search safe
  required_text-IsSafe name none n = search safe

  pub require_string-IsSafe :
      (body : Fields) (name : Text) (n : ℕ) → IsSafe host (require_string body name n)
  unfolding require_string
  require_string-IsSafe body name n = required_text-IsSafe name (field? name body) n

  optional_text-IsSafe :
      (name : Text) (v : Option Json) (n : ℕ) → IsSafe host (optional_text name v n)
  unfolding optional_text
  optional_text-IsSafe name (some (str s)) n = search (safe, bounded-IsSafe)
  optional_text-IsSafe name (some null) n = search safe
  optional_text-IsSafe name (some (bool b)) n = search safe
  optional_text-IsSafe name (some (num m)) n = search safe
  optional_text-IsSafe name (some (arr vs)) n = search safe
  optional_text-IsSafe name (some (obj fs)) n = search safe
  optional_text-IsSafe name none n = search safe

  pub optional_string-IsSafe :
      (body : Fields) (name : Text) (n : ℕ) → IsSafe host (optional_string body name n)
  unfolding optional_string
  optional_string-IsSafe body name n = optional_text-IsSafe name (field? name body) n

  list_value-IsSafe : (name : Text) (v : Option Json) (n : ℕ) → IsSafe host (list_value name v n)
  unfolding list_value
  list_value-IsSafe name (some (arr vs)) n = search safe
  list_value-IsSafe name (some null) n = search safe
  list_value-IsSafe name (some (bool b)) n = search safe
  list_value-IsSafe name (some (num m)) n = search safe
  list_value-IsSafe name (some (str s)) n = search safe
  list_value-IsSafe name (some (obj fs)) n = search safe
  list_value-IsSafe name none n = search safe

  pub string_list-IsSafe :
      (body : Fields) (name : Text) (n : ℕ) → IsSafe host (string_list body name n)
  unfolding string_list
  string_list-IsSafe body name n = list_value-IsSafe name (field? name body) n

  pub require_id-IsSafe : (value : Text) → IsSafe host (require_id value)
  unfolding require_id
  require_id-IsSafe value = Preserves-IsSafe host (require_id value) λ w s.
      elim (Bool-cases (is_uuid value)) [
        | inl e ↦ rw (e, require_id, final) s
        | inr e ↦ rw (e, require_id, final) s
      ]

  respond-Preserves :
      (w : World) (o : Outcome (Option Json))
      → Preserves host w (final o)
      → Preserves host w (respond o).1
  unfolding respond
  respond-Preserves w (ok v u) h = h
  respond-Preserves w (err e u) h = h

  pub handle_pre_auth_route-Preserves :
      {handler : Handler}
      → IsSafe host handler
      → (w : World) → Preserves host w (handle_pre_auth_route handler w).1
  unfolding handle_pre_auth_route
  handle_pre_auth_route-Preserves {handler} h w = respond-Preserves w (handler w) (h.moves w)

  pub handle_route-Preserves :
      (request : Request) {handler : Handler}
      → IsSafe host handler
      → (w : World) → Preserves host w (handle_route host request handler w).1
  unfolding handle_route
  handle_route-Preserves request {handler} h w =
      respond-Preserves w ((assert_csrf host request >> handler) w)
        ((>>=-IsSafe host (assert_csrf-IsSafe request) λ _. h).moves w)

pub ruleset kept = (
  safe, call_core_api-IsSafe, get_session_token-IsSafe, assert_same_origin-IsSafe,
  end_session-IsSafe, start_session-IsSafe, read_json-IsSafe, require_string-IsSafe,
  optional_string-IsSafe, string_list-IsSafe, require_id-IsSafe, handle_pre_auth_route-Preserves,
  handle_route-Preserves,
)
