-- ===== src/Routes/Account/SignOut.antt =====
-- What sign-out leaves in the browser.
use warder.Base.{◌≡◌, refl, Option, none, lit, Json}
use warder.CoreApi.{call_core_api}
use warder.Csrf.{assert_csrf}
use warder.RouteHelpers.{Response, json_response, respond, handle_route}
use warder.Routes.Account.{revoke_session, logout}
use warder.Routes.Shared.{bare_post}
use warder.Session.{session_cookie, csrf_cookie}
use warder.Session.Cookies.{end_session_lem}
use warder.World.{Host, World, Request, Outcome, ok, err, final}

-- A response that ends a session.
pub record IsSignedOut (p : Response × World) : Type 0 where
  pub status : (p.0).status ≡ 200
  pub no_session : (p.1).cookies session_cookie ≡ none
  pub no_token : (p.1).cookies csrf_cookie ≡ none

module _ (host : Host) where
  revoked_as :
      (w : World) (o : Outcome (Option Json))
      → call_core_api host (lit "/auth/logout") bare_post w ≡ o
      → revoke_session host w ≡ ok tt (final o)
  unfolding revoke_session
  revoked_as w (ok v u) e = rw (e, revoke_session, final) refl
  revoked_as w (err f u) e = rw (e, revoke_session, final) refl

  -- Once a request to sign out has passed the checks, both cookies are gone and the answer is 200,
  -- whether the core API ends the session, refuses, or cannot be reached.
  pub logout-IsSignedOut :
      (request : Request) (w u : World)
      → assert_csrf host request w ≡ ok tt u
      → IsSignedOut (logout host request w)
  unfolding logout handle_route respond json_response
  logout-IsSignedOut request w u e =
      let o = call_core_api host (lit "/auth/logout") bare_post u in
      let (v, ended, s, t, others) = end_session_lem (final o) in
      rw (e, revoked_as u o refl, ended) (record { status = refl; no_session = s; no_token = t })
