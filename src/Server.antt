-- ===== src/Server.antt =====
-- The server as a whole: one request after another, each to one of the routes.
pub mod Safe
use warder.Base.{Option, none, some, List, [], ◌∷◌, Text}
use warder.RouteHelpers.{Response}
use warder.Routes.Account.{login, signup, logout, accept_invitation, inspect_invitation, session}
use warder.Routes.Passkeys.{
  passkeys, delete_passkey, register_begin, register_finish, signin_begin, signin_finish,
  assert_begin, assert_finish, assert_recovery, change_password, recover_password, reset_password,
  recovery_codes_left, mint_recovery_codes,
}
use warder.Routes.Members.{
  create_organization, organizations, switch_organization, remove_member, issue_recovery,
  invitations, invite_member, withdraw_invitation, identities, create_identity, disable_identity,
  revoke_token, audit,
}
use warder.Routes.Projects.{
  projects, create_project, project_audit, access, grant_access, revoke_access, environments,
  create_environment, tokens, create_token,
}
use warder.Routes.Secrets.{
  reveal_secret, rotate_secret, secret_versions, change_expiry, secrets, create_secret,
  create_secrets,
}
use warder.World.{Host, World, Request, Cookie}

-- The routes, each with the identifiers of its path.
pub data Route : Type 0 where
  to_login : Route
  to_signup : Route
  to_logout : Route
  to_accept_invitation : Route
  to_inspect_invitation : Route
  to_passkeys : Route
  to_delete_passkey : Text → Route
  to_register_begin : Route
  to_register_finish : Route
  to_signin_begin : Route
  to_signin_finish : Route
  to_assert_begin : Route
  to_assert_finish : Route
  to_assert_recovery : Route
  to_change_password : Route
  to_recover_password : Route
  to_reset_password : Route
  to_recovery_codes_left : Route
  to_mint_recovery_codes : Route
  to_create_organization : Route
  to_organizations : Route
  to_switch_organization : Route
  to_remove_member : Text → Route
  to_issue_recovery : Text → Route
  to_invitations : Route
  to_invite_member : Route
  to_withdraw_invitation : Text → Route
  to_identities : Route
  to_create_identity : Route
  to_disable_identity : Text → Route
  to_revoke_token : Text → Route
  to_audit : Route
  to_projects : Route
  to_create_project : Route
  to_project_audit : Text → Route
  to_access : Text → Route
  to_grant_access : Text → Route
  to_revoke_access : Text → Text → Route
  to_environments : Text → Route
  to_create_environment : Text → Route
  to_tokens : Text → Route
  to_create_token : Text → Route
  to_reveal_secret : Text → Route
  to_rotate_secret : Text → Route
  to_secret_versions : Text → Route
  to_change_expiry : Text → Route
  to_secrets : Text → Route
  to_create_secret : Text → Route
  to_create_secrets : Text → Route
  to_session : Route

-- The directories of web/app/api lead a request to its handler.
unfoldable pub serve : Host → Route → Request → World → Response × World
serve host to_login request w = login host request w
serve host to_signup request w = signup host request w
serve host to_logout request w = logout host request w
serve host to_accept_invitation request w = accept_invitation host request w
serve host to_inspect_invitation request w = inspect_invitation host request w
serve host to_passkeys request w = passkeys host request w
serve host (to_delete_passkey id) request w = delete_passkey host id request w
serve host to_register_begin request w = register_begin host request w
serve host to_register_finish request w = register_finish host request w
serve host to_signin_begin request w = signin_begin host request w
serve host to_signin_finish request w = signin_finish host request w
serve host to_assert_begin request w = assert_begin host request w
serve host to_assert_finish request w = assert_finish host request w
serve host to_assert_recovery request w = assert_recovery host request w
serve host to_change_password request w = change_password host request w
serve host to_recover_password request w = recover_password host request w
serve host to_reset_password request w = reset_password host request w
serve host to_recovery_codes_left request w = recovery_codes_left host request w
serve host to_mint_recovery_codes request w = mint_recovery_codes host request w
serve host to_create_organization request w = create_organization host request w
serve host to_organizations request w = organizations host request w
serve host to_switch_organization request w = switch_organization host request w
serve host (to_remove_member id) request w = remove_member host id request w
serve host (to_issue_recovery id) request w = issue_recovery host id request w
serve host to_invitations request w = invitations host request w
serve host to_invite_member request w = invite_member host request w
serve host (to_withdraw_invitation id) request w = withdraw_invitation host id request w
serve host to_identities request w = identities host request w
serve host to_create_identity request w = create_identity host request w
serve host (to_disable_identity id) request w = disable_identity host id request w
serve host (to_revoke_token id) request w = revoke_token host id request w
serve host to_audit request w = audit host request w
serve host to_projects request w = projects host request w
serve host to_create_project request w = create_project host request w
serve host (to_project_audit id) request w = project_audit host id request w
serve host (to_access id) request w = access host id request w
serve host (to_grant_access id) request w = grant_access host id request w
serve host (to_revoke_access id other) request w = revoke_access host id other request w
serve host (to_environments id) request w = environments host id request w
serve host (to_create_environment id) request w = create_environment host id request w
serve host (to_tokens id) request w = tokens host id request w
serve host (to_create_token id) request w = create_token host id request w
serve host (to_reveal_secret id) request w = reveal_secret host id request w
serve host (to_rotate_secret id) request w = rotate_secret host id request w
serve host (to_secret_versions id) request w = secret_versions host id request w
serve host (to_change_expiry id) request w = change_expiry host id request w
serve host (to_secrets id) request w = secrets host id request w
serve host (to_create_secret id) request w = create_secret host id request w
serve host (to_create_secrets id) request w = create_secrets host id request w
serve host to_session request w = session host w

-- A request as it reaches the server: its route, and the cookies that its browser sends.
pub record Arrival : Type 0 where
  pub route : Route
  pub request : Request
  pub cookies : Text → Option Cookie

-- One request, from the state that the one before left.
unfoldable pub step : Host → Arrival → World → World
step host a w = (serve host a.route a.request (record w { cookies = a.cookies })).1

unfoldable pub run : Host → List Arrival → World → World
unfolding step
run host [] w = w
run host (a ∷ arrivals) w = run host arrivals (step host a w)
