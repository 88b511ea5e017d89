-- ===== src/Session.antt =====
-- web/lib/session.ts: the session cookie and the token that requests echo.
pub mod Cookies
pub mod Hex
use warder.Base.{
  ℕ, ◌+◌, ◌-◌, ◌/◌, ◌%◌, ◌≡◌, Bool, true, false, Option, none, some, List, [], ◌∷◌, ◌++◌, Text, lit,
  text_eq, ltb, if◌then◌else◌, Json,
}
use mathlib.Core.Option
use warder.Connection.{Connection}
use warder.Env.{connection}
use warder.World.{Host, World, Cookie, Outcome, ok, err, M, ◌>>=◌, ◌>>◌, pure}

unfoldable pub session_cookie : Text
session_cookie = lit "warder_session"

unfoldable pub csrf_cookie : Text
csrf_cookie = lit "warder_csrf"

unfoldable pub csrf_header : Text
csrf_header = lit "x-csrf-token"

unfoldable pub put_cookie : Text → Option Cookie → (Text → Option Cookie) → Text → Option Cookie
put_cookie name c jar other = if text_eq name other then c else jar other

-- `store.set` and `store.delete`
unfoldable pub set_cookie : Text → Cookie → M (Unit {0})
set_cookie name c w = ok tt (record w { cookies = put_cookie name (some c) w.cookies })

unfoldable pub delete_cookie : Text → M (Unit {0})
delete_cookie name w = ok tt (record w { cookies = put_cookie name none w.cookies })

unfoldable pub cookie_value : Option Cookie → Option Text
cookie_value none = none
cookie_value (some c) = some c.value

unfoldable pub get_session_token : M (Option Text)
get_session_token w = ok (cookie_value (w.cookies session_cookie)) w

unfoldable pub get_csrf_token : M (Option Text)
get_csrf_token w = ok (cookie_value (w.cookies csrf_cookie)) w

-- `toString(16).padStart(2, "0")` of a byte.
unfoldable pub hex_unit : ℕ → ℕ
hex_unit d = if ltb d 10 then b'0' + d else b'a' + (d - 10)

unfoldable pub hex_text : List ℕ → Text
unfolding hex_unit
hex_text [] = []
hex_text (b ∷ bs) = hex_unit (b / 16) ∷ hex_unit (b % 16) ∷ hex_text bs

unfoldable pub end_session : M (Unit {0})
unfolding delete_cookie
end_session = do delete_cookie session_cookie; delete_cookie csrf_cookie

module _ (host : Host) where
  unfoldable pub secure_cookies : M Bool
  secure_cookies w = elim (connection host w) [
    | ok c w' ↦ ok c.is_production w'
    | err e w' ↦ ok true w'
  ]

  unfoldable pub generate_csrf_token : M Text
  unfolding hex_text
  generate_csrf_token w =
      ok (hex_text (host.random_bytes w.draws)) (record w { draws = w.draws + 1 })

  -- `Math.max(0, Math.floor((expiresAt - now) / 1000))`; a difference below zero stops at 0.
  unfoldable pub max_age_of : Option ℕ → Option ℕ
  max_age_of expires_at = Option.map (λ t. (t - host.now) / 1000) expires_at

  -- The token as the core API's answer gives it, and the expiry in milliseconds.
  unfoldable pub start_session : Option Json → Option ℕ → M Text
  unfolding secure_cookies generate_csrf_token max_age_of set_cookie
  start_session token expires_at = do
    secure ← secure_cookies
    set_cookie session_cookie (record {
      value = host.text_of token;
      http_only = true;
      secure = secure;
      same_site = lit "strict";
      path = lit "/";
      max_age = max_age_of expires_at;
    })
    csrf_token ← generate_csrf_token
    set_cookie csrf_cookie (record {
      value = csrf_token;
      http_only = false;
      secure = secure;
      same_site = lit "strict";
      path = lit "/";
      max_age = max_age_of expires_at;
    })
    pure csrf_token
