-- ===== src/Routes/Members.antt =====
-- Organizations, members, invitations and machine identities: web/app/api/organizations, members,
-- identities, tokens, audit.
pub mod Safe
use warder.Base.{
  if◌then◌else◌, Bool, true, false, ◌&&◌, not, Option, some, [], ◌∷◌, ◌++◌, Text, lit, one_of, Json,
  bool, obj, no_fields, object, prop?, or_else, truthy,
}
use warder.CoreApi.{defaults, call_core_api}
use warder.Env.{connection}
use warder.RouteHelpers.{
  Response, Handler, handle_route, read_json, require_string, optional_string, invalid_request,
}
use warder.Routes.Shared.{
  posted, bare_post, bare_delete, read_prop, text_field, forwarded, query_suffix,
}
use warder.Session.{start_session}
use warder.Uuid.{require_id}
use warder.World.{Host, World, Request, M, ◌>>=◌, ◌>>◌, pure, throw_if}

unfoldable pub is_role : Text → Bool
is_role role = one_of (lit "OWNER" ∷ lit "ADMIN" ∷ lit "DEVELOPER" ∷ lit "VIEWER" ∷ []) role

unfoldable pub is_actor_type : Text → Bool
is_actor_type actor_type =
    one_of (lit "SERVICE" ∷ lit "AI_AGENT" ∷ lit "CI" ∷ lit "WORKLOAD" ∷ []) actor_type

module _ (host : Host) where
  -- `if (result.sessionToken && result.expiresAt) await startSession(…)`
  unfoldable pub replace_session : Option Json → M (Unit {0})
  unfolding read_prop
  replace_session result = do
    token ← read_prop (lit "sessionToken") result
    let expires_at = prop? (lit "expiresAt") result
    (if truthy token && truthy expires_at
        then (do csrf_token ← start_session host token (host.date expires_at); pure tt)
        else pure tt)

  unfoldable pub create_organization : Request → World → Response × World
  unfolding replace_session
  create_organization request = handle_route host request (do
    body ← read_json request
    name ← require_string body (lit "organizationName") 128
    slug ← require_string body (lit "slug") 64
    result ← call_core_api host (lit "/organizations") (
        posted
          (object (text_field (lit "organizationName") name ∷ text_field (lit "slug") slug ∷ [])))
    replace_session result
    pure (
        some (
          object (
            (lit "organizationId", prop? (lit "organizationId") result)
            ∷ (lit "organization", prop? (lit "organization") result)
            ∷ (lit "slug", prop? (lit "slug") result)
            ∷ []))))

  unfoldable pub organizations : Request → World → Response × World
  organizations request =
      handle_route host request (call_core_api host (lit "/auth/organizations") defaults)

  unfoldable pub switch_organization : Request → World → Response × World
  unfolding replace_session
  switch_organization request = handle_route host request (do
    body ← read_json request
    organization ← require_string body (lit "organization") 128
    result ←
        call_core_api host (lit "/auth/organizations/switch")
          (posted (object (text_field (lit "organization") organization ∷ [])))
    replace_session result
    pure (
        some (
          object (
            (lit "organization", prop? (lit "organization") result)
            ∷ (lit "slug", prop? (lit "slug") result)
            ∷ (lit "unchanged", some (or_else (prop? (lit "unchanged") result) (bool false)))
            ∷ []))))

  unfoldable pub remove_member : Text → Request → World → Response × World
  remove_member membership_id request =
      handle_route host request
        (do id ← require_id membership_id; call_core_api host (lit "/members/" ++ id) bare_delete)

  unfoldable pub issue_recovery : Text → Request → World → Response × World
  issue_recovery membership_id request = handle_route host request (do
    id ← require_id membership_id
    call_core_api host (lit "/members/" ++ (id ++ lit "/recovery")) (posted (obj no_fields)))

  unfoldable pub invitations : Request → World → Response × World
  invitations request =
      handle_route host request (call_core_api host (lit "/members/invitations") defaults)

  -- The link is composed here: the token of the answer goes behind `#`.
  unfoldable pub invitation_link : Option Json → Handler
  unfolding read_prop
  invitation_link created = do
    invitation_id ← read_prop (lit "invitationId") created
    c ← connection host
    pure (
        some (
          object (
            (lit "invitationId", invitation_id)
            ∷ (lit "email", prop? (lit "email") created)
            ∷ (lit "role", prop? (lit "role") created)
            ∷ (lit "expiresAt", prop? (lit "expiresAt") created)
            ∷ text_field (lit "inviteUrl")
                (c.app_origin ++ (lit "/invite#" ++ host.text_of (prop? (lit "token") created)))
            ∷ [])))

  unfoldable pub invite_member : Request → World → Response × World
  unfolding invitation_link
  invite_member request = handle_route host request (do
    body ← read_json request
    role ← require_string body (lit "role") 32
    throw_if (not (is_role role)) (invalid_request (lit "Choose a valid role."))
    name ← require_string body (lit "name") 128
    email ← require_string body (lit "email") 320
    expires_at ← optional_string body (lit "expiresAt") 64
    created ← call_core_api host (lit "/members/invitations") (
        posted (
          object (
            text_field (lit "name") name
            ∷ text_field (lit "email") email
            ∷ text_field (lit "role") role
            ∷ text_field (lit "expiresAt") expires_at
            ∷ [])))
    invitation_link created)

  unfoldable pub withdraw_invitation : Text → Request → World → Response × World
  withdraw_invitation invitation_id request = handle_route host request (do
    id ← require_id invitation_id
    call_core_api host (lit "/members/invitations/" ++ id) bare_delete)

  unfoldable pub identities : Request → World → Response × World
  identities request = handle_route host request (call_core_api host (lit "/identities") defaults)

  unfoldable pub create_identity : Request → World → Response × World
  create_identity request = handle_route host request (do
    body ← read_json request
    actor_type ← require_string body (lit "actorType") 32
    throw_if (not (is_actor_type actor_type))
        (invalid_request (lit "Choose a valid identity type."))
    name ← require_string body (lit "name") 128
    expires_at ← optional_string body (lit "expiresAt") 64
    call_core_api host (lit "/identities") (
        posted (
          object (
            text_field (lit "name") name
            ∷ text_field (lit "actorType") actor_type
            ∷ text_field (lit "expiresAt") expires_at
            ∷ []))))

  unfoldable pub disable_identity : Text → Request → World → Response × World
  disable_identity identity_id request = handle_route host request (do
    id ← require_id identity_id
    call_core_api host (lit "/identities/" ++ (id ++ lit "/disable")) bare_post)

  unfoldable pub revoke_token : Text → Request → World → Response × World
  revoke_token token_id request = handle_route host request (do
    id ← require_id token_id
    call_core_api host (lit "/tokens/" ++ (id ++ lit "/revoke")) bare_post)

  unfoldable pub audit : Request → World → Response × World
  unfolding forwarded query_suffix
  audit request = handle_route host request (
      call_core_api host
        (lit "/audit"
          ++ query_suffix host
              (forwarded (lit "eventType" ∷ lit "outcome" ∷ lit "limit" ∷ []) request))
        defaults)
