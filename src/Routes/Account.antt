-- ===== src/Routes/Account.antt =====
-- Sign-in, sign-up, sign-out and invitations: web/app/api/auth.
pub mod Safe
pub mod SignOut
use warder.Base.{
  if◌then◌else◌, true, false, Option, some, [], ◌∷◌, Text, lit, Json, null, bool, arr, no_items,
  object, prop?, or_else, truthy,
}
use warder.CoreApi.{defaults, call_core_api}
use warder.Csrf.{assert_same_origin, is_missing}
use warder.RouteHelpers.{
  Response, Handler, handle_route, handle_pre_auth_route, json_response, read_json, require_string,
  optional_string,
}
use warder.Routes.Shared.{bare_post, anonymous_post, optional_post, read_prop, text_field}
use warder.Session.{get_session_token, start_session, end_session}
use warder.World.{Host, World, Request, ok, err, M, ◌>>=◌, ◌>>◌, pure}

module _ (host : Host) where
  -- The session of an answer with `sessionToken` and `expiresAt` becomes the cookies.
  unfoldable pub begin_session : Option Json → M Text
  unfolding read_prop
  begin_session result = do
    token ← read_prop (lit "sessionToken") result
    start_session host token (host.date (prop? (lit "expiresAt") result))

  unfoldable pub signed_in : Option Json → Handler
  unfolding begin_session
  signed_in result = do
    csrf_token ← begin_session result
    user ← read_prop (lit "user") result
    email ← read_prop (lit "email") user
    pure (
        some (
          object (
            (
              lit "user",
              some (
                  object (
                    (lit "email", email)
                    ∷ (lit "name", prop? (lit "name") user)
                    ∷ (lit "organization", prop? (lit "organization") user)
                    ∷ (lit "role", prop? (lit "role") user)
                    ∷ [])),
            )
            ∷ text_field (lit "csrfToken") csrf_token
            ∷ [])))

  -- The answer to a password that an account with a passkey still has to confirm.
  unfoldable pub passkey_required : Option Json → Handler
  passkey_required result = pure (
      some (
        object (
          (lit "mfaRequired", some (bool true))
          ∷ (lit "pendingToken", prop? (lit "pendingToken") result)
          ∷ (lit "expiresAt", prop? (lit "expiresAt") result)
          ∷ [])))

  unfoldable pub finish_login : Option Json → Handler
  unfolding read_prop passkey_required signed_in
  finish_login result = do
    mfa_required ← read_prop (lit "mfaRequired") result
    if truthy mfa_required then passkey_required result else signed_in result

  unfoldable pub login : Request → World → Response × World
  login request = handle_pre_auth_route (do
    assert_same_origin host request
    body ← read_json request
    email ← require_string body (lit "email") 320
    password ← require_string body (lit "password") 256
    result ← call_core_api host (lit "/auth/login") (
        anonymous_post (
          object (
            text_field (lit "email") email
            ∷ text_field (lit "password") password
            ∷ text_field (lit "kind") (lit "browser")
            ∷ [])))
    finish_login result)

  unfoldable pub finish_signup : Option Json → Handler
  unfolding begin_session
  finish_signup result = do
    csrf_token ← begin_session result
    user ← read_prop (lit "user") result
    pure (
        some (
          object (
            (lit "user", user)
            ∷ text_field (lit "csrfToken") csrf_token
            ∷ (
              lit "recoveryCodes",
              some (or_else (prop? (lit "recoveryCodes") result) (arr no_items)),
            )
            ∷ [])))

  unfoldable pub signup : Request → World → Response × World
  signup request = handle_pre_auth_route (do
    assert_same_origin host request
    body ← read_json request
    name ← require_string body (lit "name") 128
    email ← require_string body (lit "email") 320
    password ← require_string body (lit "password") 256
    result ← call_core_api host (lit "/auth/signup") (
        anonymous_post (
          object (
            text_field (lit "name") name
            ∷ text_field (lit "email") email
            ∷ text_field (lit "password") password
            ∷ [])))
    finish_signup result)

  -- The `try` around the call of the core API: whatever it throws is dropped.
  unfoldable pub revoke_session : M (Unit {0})
  revoke_session w = elim (call_core_api host (lit "/auth/logout") bare_post w) [
    | ok v w' ↦ ok tt w'
    | err e w' ↦ ok tt w'
  ]

  unfoldable pub logout : Request → World → Response × World
  unfolding revoke_session
  logout request =
      handle_route host request
        (do revoke_session; end_session; pure (some (object ((lit "ok", some (bool true)) ∷ []))))

  -- What the public header is told about a signed-in user.
  unfoldable pub shown_user : Option Json → M Json
  unfolding read_prop
  shown_user user = do
    name ← read_prop (lit "name") user
    pure (
        object (
          (
            lit "user",
            some (
                object (
                  (lit "name", name)
                  ∷ (lit "email", prop? (lit "email") user)
                  ∷ (lit "organization", prop? (lit "organization") user)
                  ∷ [])),
          )
          ∷ []))

  abbrev pub nobody : Json
  nobody = object ((lit "user", some null) ∷ [])

  unfoldable pub session_user : M Json
  unfolding shown_user
  session_user = do
    token ← get_session_token
    (if is_missing token
        then pure nobody
        else do user ← call_core_api host (lit "/auth/session") defaults; shown_user user)

  unfoldable pub session : World → Response × World
  unfolding session_user
  session w = elim (session_user w) [
    | ok body w' ↦ (json_response body 200, w')
    | err e w' ↦ (json_response nobody 200, w')
  ]

  unfoldable pub accept_invitation : Request → World → Response × World
  accept_invitation request = handle_pre_auth_route (do
    assert_same_origin host request
    body ← read_json request
    token ← require_string body (lit "token") 128
    name ← optional_string body (lit "name") 128
    password ← optional_string body (lit "password") 256
    call_core_api host (lit "/auth/accept-invitation") (
        optional_post (
          object (
            text_field (lit "token") token
            ∷ text_field (lit "name") name
            ∷ text_field (lit "password") password
            ∷ []))))

  unfoldable pub inspect_invitation : Request → World → Response × World
  inspect_invitation request = handle_pre_auth_route (do
    assert_same_origin host request
    body ← read_json request
    token ← require_string body (lit "token") 128
    call_core_api host (lit "/auth/invitations/inspect")
        (optional_post (object (text_field (lit "token") token ∷ []))))
