-- ===== src/Routes/Projects/Safe.antt =====
-- The routes for projects, environments and tokens keep the calls of the core API to the server's own.
use warder.Base.{Bool, true, false, Text, Fields}
use warder.CoreApi.Calls.{Preserves, IsSafe}
use warder.RouteHelpers.Safe.{kept}
use warder.Routes.Projects.{
  environment_of, grant_body, projects, create_project, project_audit, access, grant_access,
  revoke_access, environments, create_environment, tokens, create_token,
}
use warder.World.{Host, World, Request}

module _ (host : Host) where
  environment_of-IsSafe : (b : Bool) (body : Fields) → IsSafe host (environment_of b body)
  unfolding environment_of
  environment_of-IsSafe true body = search kept
  environment_of-IsSafe false body = search kept

  grant_body-IsSafe : (t : Text) (body : Fields) → IsSafe host (grant_body host t body)
  unfolding grant_body
  grant_body-IsSafe t body = search (kept, environment_of-IsSafe) depth 16

  pub projects-Preserves :
      (request : Request) (w : World) → Preserves host w (projects host request w).1
  unfolding projects
  projects-Preserves request w = search kept

  pub create_project-Preserves :
      (request : Request) (w : World) → Preserves host w (create_project host request w).1
  unfolding create_project
  create_project-Preserves request w = search kept

  pub project_audit-Preserves :
      (id : Text) (request : Request) (w : World)
      → Preserves host w (project_audit host id request w).1
  unfolding project_audit
  project_audit-Preserves id request w = search kept

  pub access-Preserves :
      (id : Text) (request : Request) (w : World) → Preserves host w (access host id request w).1
  unfolding access
  access-Preserves id request w = search kept

  pub grant_access-Preserves :
      (id : Text) (request : Request) (w : World)
      → Preserves host w (grant_access host id request w).1
  unfolding grant_access
  grant_access-Preserves id request w = search (kept, grant_body-IsSafe) depth 16

  pub revoke_access-Preserves :
      (id : Text) (other : Text) (request : Request) (w : World)
      → Preserves host w (revoke_access host id other request w).1
  unfolding revoke_access
  revoke_access-Preserves id other request w = search kept

  pub environments-Preserves :
      (id : Text) (request : Request) (w : World)
      → Preserves host w (environments host id request w).1
  unfolding environments
  environments-Preserves id request w = search kept

  pub create_environment-Preserves :
      (id : Text) (request : Request) (w : World)
      → Preserves host w (create_environment host id request w).1
  unfolding create_environment
  create_environment-Preserves id request w = search kept depth 16

  pub tokens-Preserves :
      (id : Text) (request : Request) (w : World) → Preserves host w (tokens host id request w).1
  unfolding tokens
  tokens-Preserves id request w = search kept

  pub create_token-Preserves :
      (id : Text) (request : Request) (w : World)
      → Preserves host w (create_token host id request w).1
  unfolding create_token
  create_token-Preserves id request w = search kept depth 16
