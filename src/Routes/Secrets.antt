-- ===== src/Routes/Secrets.antt =====
-- Secrets: web/app/api/secrets and web/app/api/environments.
pub mod Safe
pub mod Current
use warder.Base.{
  ℕ, ◌*◌, Bool, ◌&&◌, not, Option, none, some, List, [], ◌∷◌, ◌++◌, Text, lit, length, is_empty,
  leb, ltb, if◌then◌else◌, Json, null, bool, num, str, arr, obj, items, array_of, Fields, no_fields,
  object, field?, prop?, truthy, is_str,
}
use warder.CoreApi.{defaults, call_core_api}
use warder.RouteHelpers.{
  Response, handle_route, read_json, require_string, optional_string, invalid_request,
}
use warder.Routes.Shared.{posted, bare_post, read_prop, text_field}
use warder.Uuid.{require_id}
use warder.World.{Host, World, Request, M, ◌>>=◌, ◌>>◌, pure, throw, throw_if, Failure, unexpected}

-- `version.version`; the core API numbers versions from 1.
unfoldable pub version_number : Json → ℕ
version_number v = elim (prop? (lit "version") (some v)) [ some (num n) ↦ n | _ ↦ 0 ]

-- `version.status === "ACTIVE" && !version.revokedAt`, of a value that is not `null`.
unfoldable pub is_active : Json → Bool
is_active v =
    is_str (lit "ACTIVE") (prop? (lit "status") (some v))
    && not (truthy (prop? (lit "revokedAt") (some v)))

-- The loop of `filter`, which throws where it reads a field of `null`.
unfoldable pub active_versions : List Json → M (List Json)
unfolding is_active read_prop
active_versions [] = pure []
active_versions (v ∷ vs) = do
  status ← read_prop (lit "status") (some v)
  rest ← active_versions vs
  pure (if is_active v then v ∷ rest else rest)

-- `sort((a, b) => b.version - a.version)`, which keeps the order of equals.
unfoldable pub insert_version : Json → List Json → List Json
insert_version v [] = v ∷ []
insert_version v (u ∷ us) =
    let rest = insert_version v us in
    if leb (version_number u) (version_number v) then v ∷ u ∷ us else u ∷ rest

unfoldable pub sort_versions : List Json → List Json
unfolding insert_version
sort_versions [] = []
sort_versions (v ∷ vs) = insert_version v (sort_versions vs)

-- The versions of an answer: `versions ?? []`, which has no `filter` unless it is an array.
unfoldable pub version_list : Option Json → M (List Json)
version_list none = pure []
version_list (some null) = pure []
version_list (some (arr vs)) = pure (items vs)
version_list (some (bool b)) = throw unexpected
version_list (some (num n)) = throw unexpected
version_list (some (str s)) = throw unexpected
version_list (some (obj fs)) = throw unexpected

unfoldable pub first_or_fail : List Json → M Json
first_or_fail [] = throw unexpected
first_or_fail (v ∷ vs) = pure v

-- The version whose expiry the route changes.
unfoldable pub current_version : Option Json → M Json
unfolding version_list active_versions sort_versions first_or_fail read_prop
current_version result = do
  versions ← read_prop (lit "versions") result
  listed ← version_list versions
  active ← active_versions listed
  first_or_fail (sort_versions active)

abbrev pub max_secrets : ℕ
max_secrets = 100

abbrev pub add_one : Failure
add_one = invalid_request (lit "Add at least one secret.")

-- `body.secrets` as a list that is not empty and not too long.
unfoldable pub batch_entries : Option Json → M (List Json)
batch_entries (some (arr vs)) = do
  throw_if (is_empty (items vs)) add_one
  throw_if (ltb max_secrets (length (items vs)))
      (invalid_request (lit "Import at most 100 secrets at a time."))
  pure (items vs)
batch_entries (some null) = throw add_one
batch_entries (some (bool b)) = throw add_one
batch_entries (some (num n)) = throw add_one
batch_entries (some (str s)) = throw add_one
batch_entries (some (obj fs)) = throw add_one
batch_entries none = throw add_one

abbrev pub needs_both : Failure
needs_both = invalid_request (lit "Each secret needs a key and a value.")

-- An array passes `typeof entry === "object"`, and has none of the fields.
unfoldable pub entry_fields : Json → M Fields
entry_fields (obj fs) = pure fs
entry_fields (arr vs) = pure no_fields
entry_fields null = throw needs_both
entry_fields (bool b) = throw needs_both
entry_fields (num n) = throw needs_both
entry_fields (str s) = throw needs_both

unfoldable pub batch_entry : Json → M Json
unfolding entry_fields
batch_entry entry = do
  row ← entry_fields entry
  key ← require_string row (lit "key") 128
  value ← require_string row (lit "value") 65536
  description ← optional_string row (lit "description") 512
  pure (
      object (
        text_field (lit "key") key
        ∷ text_field (lit "value") value
        ∷ text_field (lit "description") description
        ∷ []))

unfoldable pub batch_rows : List Json → M (List Json)
unfolding batch_entry
batch_rows [] = pure []
batch_rows (entry ∷ entries) = do
  row ← batch_entry entry
  rows ← batch_rows entries
  pure (row ∷ rows)

module _ (host : Host) where
  unfoldable pub reveal_secret : Text → Request → World → Response × World
  reveal_secret secret_id request = handle_route host request (do
    id ← require_id secret_id
    call_core_api host (lit "/secrets/" ++ (id ++ lit "/reveal")) bare_post)

  unfoldable pub rotate_secret : Text → Request → World → Response × World
  rotate_secret secret_id request = handle_route host request (do
    body ← read_json request
    id ← require_id secret_id
    value ← require_string body (lit "value") (512 * 1024)
    expires_at ← optional_string body (lit "expiresAt") 64
    call_core_api host (lit "/secrets/" ++ (id ++ lit "/rotate")) (
        posted
          (object (text_field (lit "value") value ∷ text_field (lit "expiresAt") expires_at ∷ []))))

  unfoldable pub secret_versions : Text → Request → World → Response × World
  secret_versions secret_id request = handle_route host request (do
    id ← require_id secret_id
    call_core_api host (lit "/secrets/" ++ (id ++ lit "/versions")) defaults)

  unfoldable pub change_expiry : Text → Request → World → Response × World
  unfolding current_version
  change_expiry secret_id request = handle_route host request (do
    body ← read_json request
    id ← require_id secret_id
    result ← call_core_api host (lit "/secrets/" ++ (id ++ lit "/versions")) defaults
    current ← current_version result
    expires_at ← optional_string body (lit "expiresAt") 64
    call_core_api host (lit "/secrets/" ++ (id ++ lit "/expiry")) (
        posted (
          object (
            (lit "versionId", prop? (lit "id") (some current))
            ∷ text_field (lit "expiresAt") expires_at
            ∷ []))))

  unfoldable pub secrets : Text → Request → World → Response × World
  secrets environment_id request = handle_route host request (do
    id ← require_id environment_id
    call_core_api host (lit "/environments/" ++ (id ++ lit "/secrets")) defaults)

  unfoldable pub create_secret : Text → Request → World → Response × World
  create_secret environment_id request = handle_route host request (do
    body ← read_json request
    id ← require_id environment_id
    key ← require_string body (lit "key") 128
    value ← require_string body (lit "value") (512 * 1024)
    description ← optional_string body (lit "description") 512
    expires_at ← optional_string body (lit "expiresAt") 64
    call_core_api host (lit "/environments/" ++ (id ++ lit "/secrets")) (
        posted (
          object (
            text_field (lit "key") key
            ∷ text_field (lit "value") value
            ∷ text_field (lit "description") description
            ∷ text_field (lit "expiresAt") expires_at
            ∷ []))))

  unfoldable pub create_secrets : Text → Request → World → Response × World
  unfolding batch_entries batch_rows
  create_secrets environment_id request = handle_route host request (do
    body ← read_json request
    entries ← batch_entries (field? (lit "secrets") body)
    rows ← batch_rows entries
    id ← require_id environment_id
    expires_at ← optional_string body (lit "expiresAt") 64
    call_core_api host (lit "/environments/" ++ (id ++ lit "/secrets/batch")) (
        posted (
          object (
            (lit "secrets", some (arr (array_of rows)))
            ∷ text_field (lit "expiresAt") expires_at
            ∷ []))))
