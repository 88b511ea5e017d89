-- ===== src/Routes/Account/Safe.antt =====
-- The routes for sign-in, sign-up, sign-out and invitations keep the calls of the core API to the server's own.
use warder.Base.{◌≡◌, refl, lit, Option, Json}
use warder.CoreApi.Calls.{Preserves, IsSafe, Preserves-IsSafe, call_core_api-IsSafe}
use warder.CoreApi.{call_core_api}
use warder.RouteHelpers.Safe.{kept}
use warder.Routes.Safe.{read_prop-IsSafe}
use warder.Routes.Shared.{bare_post}
use warder.Routes.Account.{
  begin_session, signed_in, passkey_required, finish_login, finish_signup, shown_user, session_user,
  login, signup, logout, accept_invitation, inspect_invitation, session, revoke_session,
}
use warder.World.{Host, World, Request, Outcome, ok, err, final}

module _ (host : Host) where
  pub begin_session-IsSafe : (v : Option Json) → IsSafe host (begin_session host v)
  unfolding begin_session
  begin_session-IsSafe v = search (kept, read_prop-IsSafe)

  signed_in-IsSafe : (v : Option Json) → IsSafe host (signed_in host v)
  unfolding signed_in
  signed_in-IsSafe v = search (kept, read_prop-IsSafe, begin_session-IsSafe)

  passkey_required-IsSafe : (v : Option Json) → IsSafe host (passkey_required host v)
  unfolding passkey_required
  passkey_required-IsSafe v = search kept

  finish_login-IsSafe : (v : Option Json) → IsSafe host (finish_login host v)
  unfolding finish_login
  finish_login-IsSafe v = search (kept, read_prop-IsSafe, signed_in-IsSafe)

  finish_signup-IsSafe : (v : Option Json) → IsSafe host (finish_signup host v)
  unfolding finish_signup
  finish_signup-IsSafe v = search (kept, read_prop-IsSafe, begin_session-IsSafe)

  shown_user-IsSafe : (v : Option Json) → IsSafe host (shown_user host v)
  unfolding shown_user
  shown_user-IsSafe v = search (kept, read_prop-IsSafe)

  session_user-IsSafe : IsSafe host (session_user host)
  unfolding session_user
  session_user-IsSafe = search (kept, shown_user-IsSafe)

  revoked-Preserves :
      (w : World) (o : Outcome (Option Json))
      → call_core_api host (lit "/auth/logout") bare_post w ≡ o
      → Preserves host w (final o)
      → Preserves host w (final (revoke_session host w))
  unfolding revoke_session
  revoked-Preserves w (ok v u) e h = rw (e, final) h
  revoked-Preserves w (err f u) e h = rw (e, final) h

  revoke_session-IsSafe : IsSafe host (revoke_session host)
  revoke_session-IsSafe =
      Preserves-IsSafe host (revoke_session host)
        λ w. revoked-Preserves w _ refl ((call_core_api-IsSafe host _ bare_post).moves w)

  pub login-Preserves : (request : Request) (w : World) → Preserves host w (login host request w).1
  unfolding login
  login-Preserves request w = search (kept, finish_login-IsSafe) depth 16

  pub signup-Preserves :
      (request : Request) (w : World) → Preserves host w (signup host request w).1
  unfolding signup
  signup-Preserves request w = search (kept, finish_signup-IsSafe) depth 16

  pub logout-Preserves :
      (request : Request) (w : World) → Preserves host w (logout host request w).1
  unfolding logout
  logout-Preserves request w = search (kept, revoke_session-IsSafe)

  pub accept_invitation-Preserves :
      (request : Request) (w : World) → Preserves host w (accept_invitation host request w).1
  unfolding accept_invitation
  accept_invitation-Preserves request w = search kept depth 16

  pub inspect_invitation-Preserves :
      (request : Request) (w : World) → Preserves host w (inspect_invitation host request w).1
  unfolding inspect_invitation
  inspect_invitation-Preserves request w = search kept

  probed-Preserves :
      (w : World) (o : Outcome Json)
      → session_user host w ≡ o
      → Preserves host w (final o)
      → Preserves host w (session host w).1
  unfolding session
  probed-Preserves w (ok v u) e h = rw (e, session) h
  probed-Preserves w (err f u) e h = rw (e, session) h

  pub session-Preserves : (w : World) → Preserves host w (session host w).1
  session-Preserves w =
      probed-Preserves w (session_user host w) refl ((session_user-IsSafe).moves w)
