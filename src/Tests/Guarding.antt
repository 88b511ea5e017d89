-- ===== src/Tests/Guarding.antt =====
-- The signed-in browser's request passes the checks, and its body is read.
use warder.Base.{
  ◌<◌, arith, is_empty, ◌≡◌, ◌≢◌, ◌↔◌, ◌⊎◌, ℕ, refl, Bool, true, false, Option, none, some, List,
  [], ◌∷◌, ◌++◌, Text, lit, trim, Json, null, str, Fields, record_of, field?, All,
}
use warder.ClientApi.Echo.{start_session-check_token}
use warder.ClientApi.Finding.{IsOther}
use warder.Csrf.{is_safe_method, assert_csrf, check_token}
use warder.Csrf.Complete.{assert_csrf_iff}
use warder.Csrf.Passes.{IsPassed}
use warder.Connection.{Connection}
use warder.Env.{connection}
use warder.RouteHelpers.{Handler, handle_route, require_string}
use warder.RouteHelpers.Guard.{IsRefused, IsHandled, handle_route_guard}
use warder.RouteHelpers.Reading.{Reads, require_string_iff}
use warder.Session.{start_session}
use warder.Session.Cookies.{IsStarted, start_session-IsStarted}
use warder.Tests.Parsing.{connected}
use warder.Tests.{server, start, warm, post}
use warder.World.{World, ok, pure, final}

post-unsafe : is_safe_method post ≡ false
unfolding is_safe_method lit warder.Base.text_eq warder.Base.one_of warder.Base.to_upper
    warder.Base.upper_unit
post-unsafe = refl

assert_csrf_iff_example :
    (assert_csrf server post start ≡ ok tt warm)
    ↔ ((c : Connection) × (connection server start ≡ ok c warm) × IsPassed server c start post)
assert_csrf_iff_example = assert_csrf_iff server post post-unsafe start warm

-- The right-hand side is not empty talk: the request does pass.
pub assert_csrf-test : assert_csrf server post start ≡ ok tt warm
unfolding assert_csrf warder.Csrf.assert_same_origin warder.Csrf.check_origin
    warder.Csrf.check_token warder.Csrf.check_token_of warder.Csrf.difference warder.Csrf.is_missing
    warder.Csrf.origin_accepted warder.Csrf.origin_matches warder.Csrf.text_or_empty
    warder.Csrf.timing_safe_equal warder.Session.csrf_header warder.Session.csrf_cookie
    warder.Session.get_csrf_token warder.Session.cookie_value lit warder.Base.text_eq
    warder.Base.is_empty
assert_csrf-test = rw (post-unsafe, connected) refl

abbrev nothing : Handler
nothing = pure none

handle_route_guard_example :
    IsRefused start (handle_route server post nothing start)
    ⊎ IsHandled server post nothing start (handle_route server post nothing start)
handle_route_guard_example = handle_route_guard server post nothing start post-unsafe

start_session-IsStarted_example :
    (t : Text) × (w' : World) × (start_session server none (some 61000) start ≡ ok t w')
    × IsStarted server start none (some 61000) t w'
start_session-IsStarted_example = start_session-IsStarted server none (some 61000) start

abbrev named : Fields
named = record_of ((lit "name", some (str (lit " billing "))) ∷ [])

require_string_iff_example :
    (require_string named (lit "name") 128 start ≡ ok (lit "billing") start)
    ↔ ((start ≡ start) × Reads (field? (lit "name") named) (lit "billing") 128)
require_string_iff_example = require_string_iff named (lit "name") (lit "billing") 128 start start

require_string-test : require_string named (lit "name") 128 start ≡ ok (lit "billing") start
unfolding require_string field? lit warder.Base.is_empty trim
require_string-test = refl

abbrev theme : Text × Text
theme = (lit "theme", lit "dark")

theme-IsOther : All IsOther (theme ∷ [])
unfolding lit warder.Base.text_eq
theme-IsOther = (
  record {
    name_ends = (refl, (refl, (refl, (refl, (refl, tt)))));
    name_plain = (refl, (refl, (refl, (refl, (refl, tt)))));
    value_plain = (refl, (refl, (refl, (refl, tt))));
    other = refl;
  },
  tt,
)

drawn-IsBytes : All (λ b. b < 256) (server.random_bytes 0)
drawn-IsBytes = (omega arith, (omega arith, tt))

abbrev browser_in : World
browser_in = final (start_session server none (some 61000) start)

signing_in : start_session server none (some 61000) start ≡ ok (lit "07c8") browser_in
unfolding start_session connection warder.Connection.parse_connection is_empty trim lit
    warder.Base.text_eq warder.Connection.connection_of warder.Connection.transport_of
    warder.Connection.service_token_of warder.Base.decode_uri_component warder.Connection.posture_of
    warder.Connection.is_production warder.Connection.is_http warder.Connection.resolve_app_origin
signing_in = refl

start_session-check_token_example : check_token post browser_in ≡ ok tt browser_in
unfolding is_empty lit warder.ClientApi.is_reading warder.Base.text_eq warder.ClientApi.token_header
    warder.ClientApi.read_csrf_token warder.Base.strip_prefix warder.Base.decode_uri_component
    warder.Session.csrf_header
start_session-check_token_example =
    start_session-check_token server none (some 61000) start browser_in (lit "07c8") drawn-IsBytes
      refl (theme ∷ []) [] theme-IsOther (lit "theme=dark; warder_csrf=07c8") (lit "POST") post
      signing_in refl refl refl
