-- ===== src/Routes/Shared.antt =====
-- Options of `callCoreApi` as the routes write them, and the reading of its payload.
use warder.Base.{
  true, Option, none, some, List, [], ◌∷◌, ◌++◌, Text, lit, leb, length, is_empty, if◌then◌else◌,
  Json, null, bool, num, str, arr, obj, prop?,
}
use warder.CoreApi.{CallOptions, defaults}
use warder.World.{Host, Request, M, pure, throw, unexpected}

abbrev pub posted : Json → CallOptions
posted body = record defaults { method = some (lit "POST"); body = some body }

abbrev pub bare_post : CallOptions
bare_post = record defaults { method = some (lit "POST") }

abbrev pub bare_delete : CallOptions
bare_delete = record defaults { method = some (lit "DELETE") }

abbrev pub anonymous_post : Json → CallOptions
anonymous_post body = record defaults {
  method = some (lit "POST");
  body = some body;
  anonymous = true;
}

abbrev pub optional_post : Json → CallOptions
optional_post body = record defaults {
  method = some (lit "POST");
  body = some body;
  optional_session = true;
}

-- `v.k`, which throws a `TypeError` on `null` and `undefined`.
unfoldable pub read_prop : Text → Option Json → M (Option Json)
read_prop k none = throw unexpected
read_prop k (some null) = throw unexpected
read_prop k (some (bool b)) = pure none
read_prop k (some (num n)) = pure none
read_prop k (some (str s)) = pure none
read_prop k (some (arr vs)) = pure none
read_prop k (some (obj fs)) = pure (prop? k (some (obj fs)))

abbrev pub text_field : Text → Text → Text × Option Json
text_field k s = (k, some (str s))

-- The parameters of the URL that a route forwards: those named, not empty, and not too long.
unfoldable pub forwarded : List Text → Request → List (Text × Text)
forwarded [] request = []
forwarded (name ∷ names) request =
    let rest = forwarded names request in
    elim (request.query name) [
      | none ↦ rest
      | some value ↦
          if is_empty value
          then rest
          else if leb (length value) 64
          then (name, value) ∷ rest
          else rest
    ]

-- `${query ? `?${query}` : ""}`
unfoldable pub query_suffix : Host → List (Text × Text) → Text
query_suffix host params =
    let query = host.query_text params in if is_empty query then [] else lit "?" ++ query
