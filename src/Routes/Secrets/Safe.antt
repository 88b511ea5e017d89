-- ===== src/Routes/Secrets/Safe.antt =====
-- The routes for secrets keep the calls of the core API to the server's own.
use warder.Base.{
  lit, if◌then◌else◌, Option, none, some, List, [], ◌∷◌, Text, Json, null, bool, num, str, arr, obj,
}
use warder.CoreApi.Calls.{Preserves, IsSafe, pure-IsSafe, >>=-IsSafe}
use warder.RouteHelpers.Safe.{kept}
use warder.Routes.Safe.{read_prop-IsSafe}
use warder.Routes.Secrets.{
  is_active, active_versions, version_list, first_or_fail, current_version, batch_entries,
  entry_fields, batch_entry, batch_rows, reveal_secret, rotate_secret, secret_versions,
  change_expiry, secrets, create_secret, create_secrets,
}
use warder.World.{Host, World, Request}

module _ (host : Host) where
  active_versions-IsSafe : (vs : List Json) → IsSafe host (active_versions vs)
  unfolding active_versions
  active_versions-IsSafe [] = search kept
  active_versions-IsSafe (v ∷ vs) =
      >>=-IsSafe host (read_prop-IsSafe host (lit "status") (some v)) λ status.
        >>=-IsSafe host (active_versions-IsSafe vs)
          λ rest. pure-IsSafe host (if is_active v then v ∷ rest else rest)

  version_list-IsSafe : (v : Option Json) → IsSafe host (version_list v)
  unfolding version_list
  version_list-IsSafe none = search kept
  version_list-IsSafe (some null) = search kept
  version_list-IsSafe (some (bool b)) = search kept
  version_list-IsSafe (some (num n)) = search kept
  version_list-IsSafe (some (str s)) = search kept
  version_list-IsSafe (some (arr vs)) = search kept
  version_list-IsSafe (some (obj fs)) = search kept

  first_or_fail-IsSafe : (vs : List Json) → IsSafe host (first_or_fail vs)
  unfolding first_or_fail
  first_or_fail-IsSafe [] = search kept
  first_or_fail-IsSafe (v ∷ vs) = search kept

  current_version-IsSafe : (v : Option Json) → IsSafe host (current_version v)
  unfolding current_version
  current_version-IsSafe v =
      search
        (kept, read_prop-IsSafe, active_versions-IsSafe, version_list-IsSafe, first_or_fail-IsSafe)

  batch_entries-IsSafe : (v : Option Json) → IsSafe host (batch_entries v)
  unfolding batch_entries
  batch_entries-IsSafe none = search kept
  batch_entries-IsSafe (some null) = search kept
  batch_entries-IsSafe (some (bool b)) = search kept
  batch_entries-IsSafe (some (num n)) = search kept
  batch_entries-IsSafe (some (str s)) = search kept
  batch_entries-IsSafe (some (arr vs)) = search kept
  batch_entries-IsSafe (some (obj fs)) = search kept

  entry_fields-IsSafe : (v : Json) → IsSafe host (entry_fields v)
  unfolding entry_fields
  entry_fields-IsSafe null = search kept
  entry_fields-IsSafe (bool b) = search kept
  entry_fields-IsSafe (num n) = search kept
  entry_fields-IsSafe (str s) = search kept
  entry_fields-IsSafe (arr vs) = search kept
  entry_fields-IsSafe (obj fs) = search kept

  batch_entry-IsSafe : (v : Json) → IsSafe host (batch_entry v)
  unfolding batch_entry
  batch_entry-IsSafe v = search (kept, entry_fields-IsSafe)

  batch_rows-IsSafe : (vs : List Json) → IsSafe host (batch_rows vs)
  unfolding batch_rows
  batch_rows-IsSafe [] = search kept
  batch_rows-IsSafe (v ∷ vs) =
      >>=-IsSafe host (batch_entry-IsSafe v)
        λ row. >>=-IsSafe host (batch_rows-IsSafe vs) λ rows. pure-IsSafe host (row ∷ rows)

  pub reveal_secret-Preserves :
      (id : Text) (request : Request) (w : World)
      → Preserves host w (reveal_secret host id request w).1
  unfolding reveal_secret
  reveal_secret-Preserves id request w = search kept

  pub rotate_secret-Preserves :
      (id : Text) (request : Request) (w : World)
      → Preserves host w (rotate_secret host id request w).1
  unfolding rotate_secret
  rotate_secret-Preserves id request w = search kept depth 16

  pub secret_versions-Preserves :
      (id : Text) (request : Request) (w : World)
      → Preserves host w (secret_versions host id request w).1
  unfolding secret_versions
  secret_versions-Preserves id request w = search kept

  pub change_expiry-Preserves :
      (id : Text) (request : Request) (w : World)
      → Preserves host w (change_expiry host id request w).1
  unfolding change_expiry
  change_expiry-Preserves id request w = search (kept, current_version-IsSafe) depth 16

  pub secrets-Preserves :
      (id : Text) (request : Request) (w : World) → Preserves host w (secrets host id request w).1
  unfolding secrets
  secrets-Preserves id request w = search kept

  pub create_secret-Preserves :
      (id : Text) (request : Request) (w : World)
      → Preserves host w (create_secret host id request w).1
  unfolding create_secret
  create_secret-Preserves id request w = search kept depth 16

  pub create_secrets-Preserves :
      (id : Text) (request : Request) (w : World)
      → Preserves host w (create_secrets host id request w).1
  unfolding create_secrets
  create_secrets-Preserves id request w =
      search (kept, batch_entries-IsSafe, batch_rows-IsSafe) depth 16
