-- ===== src/Routes/Members/Safe.antt =====
-- The routes for organizations, members and identities keep the calls of the core API to the server's own.
use warder.Base.{Option, Text, Json}
use warder.CoreApi.Calls.{Preserves, IsSafe}
use warder.RouteHelpers.Safe.{kept}
use warder.Routes.Safe.{read_prop-IsSafe}
use warder.Routes.Members.{
  replace_session, invitation_link, create_organization, organizations, switch_organization,
  remove_member, issue_recovery, invitations, invite_member, withdraw_invitation, identities,
  create_identity, disable_identity, revoke_token, audit,
}
use warder.World.{Host, World, Request}

module _ (host : Host) where
  replace_session-IsSafe : (v : Option Json) → IsSafe host (replace_session host v)
  unfolding replace_session
  replace_session-IsSafe v = search (kept, read_prop-IsSafe)

  invitation_link-IsSafe : (v : Option Json) → IsSafe host (invitation_link host v)
  unfolding invitation_link
  invitation_link-IsSafe v = search (kept, read_prop-IsSafe)

  pub create_organization-Preserves :
      (request : Request) (w : World) → Preserves host w (create_organization host request w).1
  unfolding create_organization
  create_organization-Preserves request w = search (kept, replace_session-IsSafe) depth 16

  pub organizations-Preserves :
      (request : Request) (w : World) → Preserves host w (organizations host request w).1
  unfolding organizations
  organizations-Preserves request w = search kept

  pub switch_organization-Preserves :
      (request : Request) (w : World) → Preserves host w (switch_organization host request w).1
  unfolding switch_organization
  switch_organization-Preserves request w = search (kept, replace_session-IsSafe) depth 16

  pub remove_member-Preserves :
      (id : Text) (request : Request) (w : World)
      → Preserves host w (remove_member host id request w).1
  unfolding remove_member
  remove_member-Preserves id request w = search kept

  pub issue_recovery-Preserves :
      (id : Text) (request : Request) (w : World)
      → Preserves host w (issue_recovery host id request w).1
  unfolding issue_recovery
  issue_recovery-Preserves id request w = search kept

  pub invitations-Preserves :
      (request : Request) (w : World) → Preserves host w (invitations host request w).1
  unfolding invitations
  invitations-Preserves request w = search kept

  pub invite_member-Preserves :
      (request : Request) (w : World) → Preserves host w (invite_member host request w).1
  unfolding invite_member
  invite_member-Preserves request w = search (kept, invitation_link-IsSafe) depth 16

  pub withdraw_invitation-Preserves :
      (id : Text) (request : Request) (w : World)
      → Preserves host w (withdraw_invitation host id request w).1
  unfolding withdraw_invitation
  withdraw_invitation-Preserves id request w = search kept

  pub identities-Preserves :
      (request : Request) (w : World) → Preserves host w (identities host request w).1
  unfolding identities
  identities-Preserves request w = search kept

  pub create_identity-Preserves :
      (request : Request) (w : World) → Preserves host w (create_identity host request w).1
  unfolding create_identity
  create_identity-Preserves request w = search kept depth 16

  pub disable_identity-Preserves :
      (id : Text) (request : Request) (w : World)
      → Preserves host w (disable_identity host id request w).1
  unfolding disable_identity
  disable_identity-Preserves id request w = search kept

  pub revoke_token-Preserves :
      (id : Text) (request : Request) (w : World)
      → Preserves host w (revoke_token host id request w).1
  unfolding revoke_token
  revoke_token-Preserves id request w = search kept

  pub audit-Preserves : (request : Request) (w : World) → Preserves host w (audit host request w).1
  unfolding audit
  audit-Preserves request w = search kept
