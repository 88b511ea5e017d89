-- ===== src/CoreApi.antt =====
-- web/lib/core-api.ts: the one way from the web application to the core API.
pub mod Calls
use warder.Base.{
  ℕ, Bool, false, ◌&&◌, not, Option, none, some, [], ◌∷◌, ◌++◌, Text, lit, starts_with, cut_at,
  is_empty, trim, leb, ltb, ◌==◌, if◌then◌else◌, Json, null, str, prop?, or_else, is_str,
}
use mathlib.Core.Option
use warder.Connection.{Connection}
use warder.Env.{connection}
use warder.Session.{get_session_token}
use warder.Csrf.{is_missing, text_or_empty}
use warder.World.{
  Host, CoreRequest, Reply, failed, answered, ok, M, ◌>>=◌, ◌>>◌, pure, throw, throw_if, Failure,
  not_authenticated, core, unexpected,
}

-- `CallOptions`
pub record CallOptions : Type 0 where
  pub method : Option Text
  pub body : Option Json
  pub anonymous : Bool
  pub session_token : Option Text
  pub optional_session : Bool

abbrev pub defaults : CallOptions
defaults = record {
  method = none;
  body = none;
  anonymous = false;
  session_token = none;
  optional_session = false;
}

unfoldable pub text_or_none : Text → Option Text
text_or_none s = if is_empty s then none else some s

-- `forwarded.split(",")[0].trim()`
unfoldable pub first_address : Text → Text
first_address forwarded = elim (cut_at b',' forwarded) [
  | none ↦ trim forwarded
  | some (first, rest) ↦ trim first
]

unfoldable pub is_relative : Text → Bool
is_relative path = starts_with path (lit "/") && not (starts_with path (lit "//"))

unfoldable pub token_of : CallOptions → M (Option Text)
token_of options = elim options.session_token [
  | some token ↦ pure (some token)
  | none ↦ get_session_token
]

unfoldable pub bearer : Text → Text
bearer token = lit "Bearer " ++ token

-- The `Authorization` header of a call, or the refusal to make it.
unfoldable pub authorization_of : CallOptions → M (Option Text)
unfolding token_of bearer
authorization_of options =
    if options.optional_session
    then (do
      token ← token_of options
      pure (if is_missing token then none else some (bearer (text_or_empty token))))
    else if options.anonymous
    then pure none
    else do
      token ← token_of options
      throw_if (is_missing token) not_authenticated
      pure (some (bearer (text_or_empty token)))

abbrev pub unavailable : Failure
unavailable =
    core 502 (str (lit "upstream_unavailable"))
      (str (lit "The service is temporarily unavailable.")) none

-- What an answer that is not `ok` throws.
unfoldable pub failure_of : Bool → ℕ → Option Json → Failure
failure_of anonymous status error =
    if is_str (lit "service_unauthorized") (prop? (lit "code") error)
    then core 503 (str (lit "misconfigured"))
        (str (
          lit "This dashboard is not configured correctly for its backend. Check the server logs."))
        none
    else if status == 401
    then (if anonymous
        then core 401 (str (lit "invalid_credentials"))
            (str (lit "That email and password do not match an account.")) none
        else not_authenticated)
    else core status (or_else (prop? (lit "code") error) (str (lit "request_failed")))
        (or_else (prop? (lit "message") error) (str (lit "The request could not be completed.")))
        (prop? (lit "details") error)

-- A body that is not JSON counts as `null`.
unfoldable pub payload_of : Option Json → Json
payload_of none = null
payload_of (some v) = v

-- The payload that a call returns (`none` is `undefined`), or what it throws.
unfoldable pub read_reply : Bool → Reply → M (Option Json)
unfolding failure_of payload_of
read_reply anonymous failed = throw unavailable
read_reply anonymous (answered status payload) =
    if leb 300 status && ltb status 400
    then throw unavailable
    else if status == 204
    then pure none
    else if leb 200 status && ltb status 300
    then pure (some (payload_of payload))
    else throw (failure_of anonymous status (prop? (lit "error") (some (payload_of payload))))

module _ (host : Host) where
  unfoldable pub caller_address : Option Text
  unfolding text_or_none first_address
  caller_address =
      let real = trim (text_or_empty (host.incoming (lit "x-real-ip"))) in
      let forwarded = text_or_empty (host.incoming (lit "x-forwarded-for")) in
      if is_empty real then text_or_none (first_address forwarded) else some real

  unfoldable pub send : CoreRequest → M Reply
  send request w = ok (host.fetch w.calls request) (record w { calls = w.calls ++ request ∷ [] })

  unfoldable pub request_of : Connection → Text → CallOptions → Option Text → CoreRequest
  unfolding caller_address
  request_of c path options authorization = record {
    base_url = c.core_api_url;
    path = path;
    method = Option.get_or options.method (lit "GET");
    service_token = c.service_token;
    authorization = authorization;
    forwarded_for = caller_address;
    content_type = Option.map (λ _. lit "application/json") options.body;
    body = options.body;
  }

  unfoldable pub call_core_api : Text → CallOptions → M (Option Json)
  unfolding is_relative authorization_of send request_of read_reply
  call_core_api path options = do
    throw_if (not (is_relative path)) unexpected
    c ← connection host
    authorization ← authorization_of options
    reply ← send (request_of c path options authorization)
    read_reply options.anonymous reply
