-- ===== src/Routes/Discovery.antt =====
-- web/app/.well-known/warder/route.ts: where the command line finds the runtime service.
use warder.Base.{none, some, [], ◌∷◌, Text, lit, is_empty, if◌then◌else◌, str, object}
use warder.Env.{cli_runtime_url}
use warder.RouteHelpers.{Response}
use warder.World.{Host}

unfoldable pub not_configured : Response
not_configured = record {
  status = 404;
  body = object ((lit "error", some (str (lit "runtime_url_not_configured"))) ∷ []);
  cache_control = lit "no-store";
}

unfoldable pub runtime_document : Text → Response
unfolding not_configured
runtime_document url = if is_empty url then not_configured else (record {
  status = 200;
  body = object ((lit "runtimeUrl", some (str url)) ∷ []);
  cache_control = lit "public, max-age=300";
})

-- `GET`
unfoldable pub discovery : Host → Response
unfolding runtime_document not_configured
discovery host = elim (cli_runtime_url host) [
  | none ↦ not_configured
  | some url ↦ runtime_document url
]
