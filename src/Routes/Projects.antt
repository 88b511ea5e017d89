-- ===== src/Routes/Projects.antt =====
-- Projects, their environments, access grants, tokens and audit trail: web/app/api/projects.
pub mod Safe
use warder.Base.{
  Bool, true, false, ◌&&◌, not, Option, none, some, [], ◌∷◌, ◌++◌, Text, lit, text_eq, Json, null,
  bool, num, str, arr, obj, Fields, object, field?,
}
use warder.CoreApi.{defaults, call_core_api}
use warder.RouteHelpers.{
  Response, handle_route, read_json, require_string, optional_string, string_list, invalid_request,
}
use warder.Routes.Shared.{posted, bare_delete, text_field, forwarded, query_suffix}
use warder.Uuid.{require_id}
use warder.World.{Host, World, Request, M, ◌>>=◌, ◌>>◌, pure, throw_if}

-- `value === true`
unfoldable pub is_true : Option Json → Bool
is_true (some (bool b)) = b
is_true (some null) = false
is_true (some (num n)) = false
is_true (some (str s)) = false
is_true (some (arr vs)) = false
is_true (some (obj fs)) = false
is_true none = false

-- The environment of a grant: none for a wildcard, and required otherwise.
unfoldable pub environment_of : Bool → Fields → M Text
environment_of true body = pure []
environment_of false body = require_string body (lit "environmentId") 64

module _ (host : Host) where
  unfoldable pub projects : Request → World → Response × World
  projects request = handle_route host request (call_core_api host (lit "/projects") defaults)

  -- The two fields that the forms for a project and an environment offer.
  abbrev named : Text → Text → Json
  named name slug = object (text_field (lit "name") name ∷ text_field (lit "slug") slug ∷ [])

  unfoldable pub create_project : Request → World → Response × World
  create_project request = handle_route host request (do
    body ← read_json request
    name ← require_string body (lit "name") 128
    slug ← require_string body (lit "slug") 64
    call_core_api host (lit "/projects") (posted (named name slug)))

  unfoldable pub project_audit : Text → Request → World → Response × World
  unfolding forwarded query_suffix
  project_audit project_id request = handle_route host request (do
    id ← require_id project_id
    call_core_api host
        (lit "/projects/"
          ++ (id
              ++ (lit "/audit"
                  ++ query_suffix host (
                      forwarded
                        (lit "eventType"
                          ∷ lit "outcome"
                          ∷ lit "environmentId"
                          ∷ lit "secretId"
                          ∷ lit "limit"
                          ∷ [])
                        request))))
        defaults)

  unfoldable pub access : Text → Request → World → Response × World
  access project_id request = handle_route host request (do
    id ← require_id project_id
    call_core_api host (lit "/projects/" ++ (id ++ lit "/access")) defaults)

  -- The body of a grant, from the fields of the request that the route reads.
  unfoldable pub grant_body : Text → Fields → M Json
  unfolding is_true environment_of
  grant_body subject_type body = do
    let all_environments = is_true (field? (lit "allEnvironments") body)
    subject_id ← require_string body (lit "subjectId") 64
    environment_id ← environment_of all_environments body
    secret_id ← optional_string body (lit "secretId") 64
    capabilities ← string_list body (lit "capabilities") 16
    expires_at ← optional_string body (lit "expiresAt") 64
    reason ← optional_string body (lit "reason") 512
    pure (
        object (
          text_field (lit "subjectType") subject_type
          ∷ text_field (lit "subjectId") subject_id
          ∷ text_field (lit "environmentId") environment_id
          ∷ text_field (lit "secretId") secret_id
          ∷ (lit "allEnvironments", some (bool all_environments))
          ∷ (lit "capabilities", some (arr capabilities))
          ∷ text_field (lit "expiresAt") expires_at
          ∷ text_field (lit "reason") reason
          ∷ []))

  unfoldable pub grant_access : Text → Request → World → Response × World
  unfolding grant_body
  grant_access project_id request = handle_route host request (do
    body ← read_json request
    subject_type ← require_string body (lit "subjectType") 16
    throw_if (not (text_eq subject_type (lit "USER")) && not (text_eq subject_type (lit "MACHINE")))
        (invalid_request (lit "Choose a person or a machine identity."))
    id ← require_id project_id
    grant ← grant_body subject_type body
    call_core_api host (lit "/projects/" ++ (id ++ lit "/access")) (posted grant))

  unfoldable pub revoke_access : Text → Text → Request → World → Response × World
  revoke_access project_id grant_id request = handle_route host request (do
    id ← require_id project_id
    grant ← require_id grant_id
    call_core_api host (lit "/projects/" ++ (id ++ (lit "/access/" ++ grant))) bare_delete)

  unfoldable pub environments : Text → Request → World → Response × World
  environments project_id request = handle_route host request (do
    id ← require_id project_id
    call_core_api host (lit "/projects/" ++ (id ++ lit "/environments")) defaults)

  unfoldable pub create_environment : Text → Request → World → Response × World
  create_environment project_id request = handle_route host request (do
    body ← read_json request
    id ← require_id project_id
    name ← require_string body (lit "name") 128
    slug ← require_string body (lit "slug") 64
    call_core_api host (lit "/projects/" ++ (id ++ lit "/environments")) (posted (named name slug)))

  unfoldable pub tokens : Text → Request → World → Response × World
  tokens project_id request = handle_route host request (do
    id ← require_id project_id
    call_core_api host (lit "/projects/" ++ (id ++ lit "/tokens")) defaults)

  unfoldable pub create_token : Text → Request → World → Response × World
  create_token project_id request = handle_route host request (do
    body ← read_json request
    id ← require_id project_id
    identity_id ← require_string body (lit "identityId") 64
    name ← require_string body (lit "name") 128
    environment_id ← require_string body (lit "environmentId") 64
    capabilities ← string_list body (lit "capabilities") 16
    secret_keys ← string_list body (lit "secretKeys") 128
    expires_at ← optional_string body (lit "expiresAt") 64
    call_core_api host (lit "/projects/" ++ (id ++ lit "/tokens")) (
        posted (
          object (
            text_field (lit "identityId") identity_id
            ∷ text_field (lit "name") name
            ∷ text_field (lit "environmentId") environment_id
            ∷ (lit "capabilities", some (arr capabilities))
            ∷ (lit "secretKeys", some (arr secret_keys))
            ∷ text_field (lit "expiresAt") expires_at
            ∷ []))))
