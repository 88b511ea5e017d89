-- ===== src/Env.antt =====
-- web/lib/env.ts: the connection, parsed once per process, and what it offers without throwing.
pub mod Laws
use warder.Base.{
  ◌≡◌, Bool, true, false, ◌&&◌, not, Option, none, some, List, [], ◌∷◌, Text, lit, text_eq,
  is_empty, trim, ◌==◌, if◌then◌else◌,
}
use warder.Connection.{Url, Connection, Parsed, parsed, refused, Refusal, parse_connection}
use warder.World.{Host, World, Outcome, ok, err, M, misconfigured, Failure}

-- `.replace(/\/$/, "")`
unfoldable pub drop_last_slash : Text → Text
drop_last_slash [] = []
drop_last_slash (c ∷ []) = if c == b'/' then [] else c ∷ []
drop_last_slash (c ∷ d ∷ s) = c ∷ drop_last_slash (d ∷ s)

module _ (host : Host) where
  -- Keep what was parsed in `cached`, or throw.
  unfoldable pub store_parsed : World → Parsed Connection → Outcome Connection
  store_parsed w (parsed c) = ok c (record w { cached = some c })
  store_parsed w (refused r) = err (misconfigured r) w

  unfoldable pub use_cached : World → Option Connection → Outcome Connection
  unfolding store_parsed
  use_cached w (some c) = ok c w
  use_cached w none = store_parsed w (parse_connection host.new_url host.warder_url)

  unfoldable pub connection : M Connection
  unfolding use_cached
  connection w = use_cached w w.cached

  -- The message is that of whatever was thrown.
  unfoldable pub configuration_problem : M (Option Failure)
  configuration_problem w = elim (connection w) [ ok c w' ↦ ok none w' | err e w' ↦ ok (some e) w' ]

  unfoldable pub public_origin : M Text
  public_origin w = elim (connection w) [
    | ok c w' ↦ ok c.app_origin w'
    | err e w' ↦ ok (lit "http://localhost:3000") w'
  ]

  -- The printed URL, once its user name and password are emptied, is the platform's `url_text`.
  unfoldable pub cli_runtime_text : Url → Option Text
  unfolding drop_last_slash
  cli_runtime_text url =
      if not (text_eq url.protocol (lit "https:")) && not (text_eq url.protocol (lit "http:"))
      then none
      else some (drop_last_slash (host.url_text (record url { username = []; password = [] })))

  unfoldable pub cli_runtime_url_of : Text → Option Text
  unfolding cli_runtime_text
  cli_runtime_url_of raw =
      if is_empty raw
      then none
      else elim (host.new_url raw) [ none ↦ none | some url ↦ cli_runtime_text url ]

  unfoldable pub cli_runtime_url : Option Text
  unfolding cli_runtime_url_of
  cli_runtime_url = elim host.runtime_url [ none ↦ none | some raw ↦ cli_runtime_url_of (trim raw) ]
