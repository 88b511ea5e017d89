-- ===== src/Routes/Passkeys.antt =====
-- Passkeys, passwords and recovery codes: web/app/api/auth/passkeys, password, recovery-codes.
pub mod Safe
use warder.Base.{Option, some, [], ◌∷◌, ◌++◌, Text, lit, Json, obj, no_fields, object}
use warder.CoreApi.{defaults, call_core_api}
use warder.Csrf.{assert_same_origin}
use warder.RouteHelpers.{Response, Handler, handle_route, handle_pre_auth_route, read_json}
use warder.Routes.Account.{begin_session}
use warder.Routes.Shared.{posted, bare_post, bare_delete, anonymous_post, read_prop, text_field}
use warder.Uuid.{require_id}
use warder.World.{Host, World, Request, ◌>>=◌, ◌>>◌, pure}

module _ (host : Host) where
  unfoldable pub passkeys : Request → World → Response × World
  passkeys request = handle_route host request (call_core_api host (lit "/auth/passkeys") defaults)

  unfoldable pub delete_passkey : Text → Request → World → Response × World
  delete_passkey passkey_id request =
      handle_route host request (do
        id ← require_id passkey_id
        call_core_api host (lit "/auth/passkeys/" ++ id) bare_delete)

  unfoldable pub register_begin : Request → World → Response × World
  register_begin request =
      handle_route host request
        (call_core_api host (lit "/auth/passkeys/register/begin") (posted (obj no_fields)))

  unfoldable pub register_finish : Request → World → Response × World
  register_finish request = handle_route host request (do
    body ← read_json request
    call_core_api host (lit "/auth/passkeys/register/finish") (posted (obj body)))

  unfoldable pub signin_begin : Request → World → Response × World
  signin_begin request = handle_pre_auth_route (do
    assert_same_origin host request
    call_core_api host (lit "/auth/passkeys/signin/begin") (anonymous_post (obj no_fields)))

  -- The common end of the three routes that complete a ceremony.
  unfoldable pub complete : Option Json → Handler
  unfolding begin_session
  complete result = do
    csrf_token ← begin_session host result
    user ← read_prop (lit "user") result
    pure (some (object ((lit "user", user) ∷ text_field (lit "csrfToken") csrf_token ∷ [])))

  unfoldable pub signin_finish : Request → World → Response × World
  unfolding complete
  signin_finish request = handle_pre_auth_route (do
    assert_same_origin host request
    body ← read_json request
    result ← call_core_api host (lit "/auth/passkeys/signin/finish") (anonymous_post (obj body))
    complete result)

  unfoldable pub assert_begin : Request → World → Response × World
  assert_begin request = handle_pre_auth_route (do
    assert_same_origin host request
    body ← read_json request
    call_core_api host (lit "/auth/passkeys/assert/begin") (anonymous_post (obj body)))

  unfoldable pub assert_finish : Request → World → Response × World
  unfolding complete
  assert_finish request = handle_pre_auth_route (do
    assert_same_origin host request
    body ← read_json request
    result ← call_core_api host (lit "/auth/passkeys/assert/finish") (anonymous_post (obj body))
    complete result)

  unfoldable pub assert_recovery : Request → World → Response × World
  unfolding complete
  assert_recovery request = handle_pre_auth_route (do
    assert_same_origin host request
    body ← read_json request
    result ← call_core_api host (lit "/auth/passkeys/assert/recovery") (anonymous_post (obj body))
    complete result)

  unfoldable pub change_password : Request → World → Response × World
  change_password request =
      handle_route host request
        (do body ← read_json request; call_core_api host (lit "/auth/password") (posted (obj body)))

  unfoldable pub recover_password : Request → World → Response × World
  recover_password request = handle_pre_auth_route (do
    assert_same_origin host request
    body ← read_json request
    call_core_api host (lit "/auth/password/recover") (anonymous_post (obj body)))

  unfoldable pub reset_password : Request → World → Response × World
  reset_password request = handle_pre_auth_route (do
    assert_same_origin host request
    body ← read_json request
    call_core_api host (lit "/auth/password/reset") (anonymous_post (obj body)))

  unfoldable pub recovery_codes_left : Request → World → Response × World
  recovery_codes_left request =
      handle_route host request (call_core_api host (lit "/auth/recovery-codes") defaults)

  unfoldable pub mint_recovery_codes : Request → World → Response × World
  mint_recovery_codes request =
      handle_route host request (call_core_api host (lit "/auth/recovery-codes") bare_post)
