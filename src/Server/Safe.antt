-- ===== src/Server/Safe.antt =====
-- Every call of the core API that the server ever makes is one of its own.
use warder.Base.{◌≡◌, none, List, [], ◌∷◌}
use warder.CoreApi.Calls.{IsSound, Preserves}
use warder.Server.{
  Route, to_login, to_signup, to_logout, to_accept_invitation, to_inspect_invitation, to_passkeys,
  to_delete_passkey, to_register_begin, to_register_finish, to_signin_begin, to_signin_finish,
  to_assert_begin, to_assert_finish, to_assert_recovery, to_change_password, to_recover_password,
  to_reset_password, to_recovery_codes_left, to_mint_recovery_codes, to_create_organization,
  to_organizations, to_switch_organization, to_remove_member, to_issue_recovery, to_invitations,
  to_invite_member, to_withdraw_invitation, to_identities, to_create_identity, to_disable_identity,
  to_revoke_token, to_audit, to_projects, to_create_project, to_project_audit, to_access,
  to_grant_access, to_revoke_access, to_environments, to_create_environment, to_tokens,
  to_create_token, to_reveal_secret, to_rotate_secret, to_secret_versions, to_change_expiry,
  to_secrets, to_create_secret, to_create_secrets, to_session, serve, Arrival, step, run,
}
use warder.Routes.Account.Safe.{
  login-Preserves, signup-Preserves, logout-Preserves, accept_invitation-Preserves,
  inspect_invitation-Preserves, session-Preserves,
}
use warder.Routes.Passkeys.Safe.{
  passkeys-Preserves, delete_passkey-Preserves, register_begin-Preserves, register_finish-Preserves,
  signin_begin-Preserves, signin_finish-Preserves, assert_begin-Preserves, assert_finish-Preserves,
  assert_recovery-Preserves, change_password-Preserves, recover_password-Preserves,
  reset_password-Preserves, recovery_codes_left-Preserves, mint_recovery_codes-Preserves,
}
use warder.Routes.Members.Safe.{
  create_organization-Preserves, organizations-Preserves, switch_organization-Preserves,
  remove_member-Preserves, issue_recovery-Preserves, invitations-Preserves, invite_member-Preserves,
  withdraw_invitation-Preserves, identities-Preserves, create_identity-Preserves,
  disable_identity-Preserves, revoke_token-Preserves, audit-Preserves,
}
use warder.Routes.Projects.Safe.{
  projects-Preserves, create_project-Preserves, project_audit-Preserves, access-Preserves,
  grant_access-Preserves, revoke_access-Preserves, environments-Preserves,
  create_environment-Preserves, tokens-Preserves, create_token-Preserves,
}
use warder.Routes.Secrets.Safe.{
  reveal_secret-Preserves, rotate_secret-Preserves, secret_versions-Preserves,
  change_expiry-Preserves, secrets-Preserves, create_secret-Preserves, create_secrets-Preserves,
}
use warder.World.{Host, World, Request}

module _ (host : Host) where
  serve-Preserves :
      (route : Route) (request : Request) (w : World)
      → Preserves host w (serve host route request w).1
  unfolding serve
  serve-Preserves to_login request w = login-Preserves host request w
  serve-Preserves to_signup request w = signup-Preserves host request w
  serve-Preserves to_logout request w = logout-Preserves host request w
  serve-Preserves to_accept_invitation request w = accept_invitation-Preserves host request w
  serve-Preserves to_inspect_invitation request w = inspect_invitation-Preserves host request w
  serve-Preserves to_passkeys request w = passkeys-Preserves host request w
  serve-Preserves (to_delete_passkey id) request w = delete_passkey-Preserves host id request w
  serve-Preserves to_register_begin request w = register_begin-Preserves host request w
  serve-Preserves to_register_finish request w = register_finish-Preserves host request w
  serve-Preserves to_signin_begin request w = signin_begin-Preserves host request w
  serve-Preserves to_signin_finish request w = signin_finish-Preserves host request w
  serve-Preserves to_assert_begin request w = assert_begin-Preserves host request w
  serve-Preserves to_assert_finish request w = assert_finish-Preserves host request w
  serve-Preserves to_assert_recovery request w = assert_recovery-Preserves host request w
  serve-Preserves to_change_password request w = change_password-Preserves host request w
  serve-Preserves to_recover_password request w = recover_password-Preserves host request w
  serve-Preserves to_reset_password request w = reset_password-Preserves host request w
  serve-Preserves to_recovery_codes_left request w = recovery_codes_left-Preserves host request w
  serve-Preserves to_mint_recovery_codes request w = mint_recovery_codes-Preserves host request w
  serve-Preserves to_create_organization request w = create_organization-Preserves host request w
  serve-Preserves to_organizations request w = organizations-Preserves host request w
  serve-Preserves to_switch_organization request w = switch_organization-Preserves host request w
  serve-Preserves (to_remove_member id) request w = remove_member-Preserves host id request w
  serve-Preserves (to_issue_recovery id) request w = issue_recovery-Preserves host id request w
  serve-Preserves to_invitations request w = invitations-Preserves host request w
  serve-Preserves to_invite_member request w = invite_member-Preserves host request w
  serve-Preserves (to_withdraw_invitation id) request w =
      withdraw_invitation-Preserves host id request w
  serve-Preserves to_identities request w = identities-Preserves host request w
  serve-Preserves to_create_identity request w = create_identity-Preserves host request w
  serve-Preserves (to_disable_identity id) request w = disable_identity-Preserves host id request w
  serve-Preserves (to_revoke_token id) request w = revoke_token-Preserves host id request w
  serve-Preserves to_audit request w = audit-Preserves host request w
  serve-Preserves to_projects request w = projects-Preserves host request w
  serve-Preserves to_create_project request w = create_project-Preserves host request w
  serve-Preserves (to_project_audit id) request w = project_audit-Preserves host id request w
  serve-Preserves (to_access id) request w = access-Preserves host id request w
  serve-Preserves (to_grant_access id) request w = grant_access-Preserves host id request w
  serve-Preserves (to_revoke_access id other) request w =
      revoke_access-Preserves host id other request w
  serve-Preserves (to_environments id) request w = environments-Preserves host id request w
  serve-Preserves (to_create_environment id) request w =
      create_environment-Preserves host id request w
  serve-Preserves (to_tokens id) request w = tokens-Preserves host id request w
  serve-Preserves (to_create_token id) request w = create_token-Preserves host id request w
  serve-Preserves (to_reveal_secret id) request w = reveal_secret-Preserves host id request w
  serve-Preserves (to_rotate_secret id) request w = rotate_secret-Preserves host id request w
  serve-Preserves (to_secret_versions id) request w = secret_versions-Preserves host id request w
  serve-Preserves (to_change_expiry id) request w = change_expiry-Preserves host id request w
  serve-Preserves (to_secrets id) request w = secrets-Preserves host id request w
  serve-Preserves (to_create_secret id) request w = create_secret-Preserves host id request w
  serve-Preserves (to_create_secrets id) request w = create_secrets-Preserves host id request w
  serve-Preserves to_session request w = session-Preserves host w

  step-Preserves : (a : Arrival) (w : World) → Preserves host w (step host a w)
  unfolding step
  step-Preserves a w s =
      serve-Preserves a.route a.request (record w { cookies = a.cookies })
        (record { fresh = s.fresh; own = s.own })

  run-Preserves : (arrivals : List Arrival) (w : World) → Preserves host w (run host arrivals w)
  unfolding run
  run-Preserves [] w s = s
  run-Preserves (a ∷ arrivals) w s = run-Preserves arrivals (step host a w) (step-Preserves a w s)

  -- However many requests arrive, with whatever routes, bodies and cookies, and however the core API
  -- answers: a server that starts with no connection read and no call made only ever calls the
  -- address that its connection URI names, with that URI's credential, and a path below it. The
  -- connection that it keeps is that of the URI.
  pub run-IsSound :
      (arrivals : List Arrival) (w : World)
      → w.cached ≡ none
      → w.calls ≡ []
      → IsSound host (run host arrivals w)
  run-IsSound arrivals w cold idle =
      run-Preserves arrivals w (record { fresh = rw cold tt; own = rw idle tt })
