-- ===== src/Tests/Parsing.antt =====
-- The connection URI of the server is accepted, and kept.
use warder.Base.{◌≡◌, refl, sym, Option, none, some, List, [], ◌∷◌, Text, lit, trim}
use warder.Connection.{
  Url, Connection, Parsed, parsed, parse_connection, connection_of, service_token_of,
}
use warder.Connection.Accepted.{IsAccepted, parse_connection-IsAccepted}
use warder.Connection.Secrecy.{IsSameButToken, with_username, connection_of-IsSameButToken}
use warder.Env.{connection}
use warder.Env.Laws.{connection-eq-ok}
use warder.Tests.{credential, uri, parsed_uri, read_url, the_connection, server, start, warm}
use warder.World.{ok}

parse_uri : parse_connection read_url (some uri) ≡ parsed the_connection
unfolding parse_connection connection_of warder.Base.is_empty trim lit warder.Base.text_eq
    warder.Connection.transport_of service_token_of warder.Base.decode_uri_component
    warder.Connection.posture_of warder.Connection.is_production warder.Connection.is_http
    warder.Connection.resolve_app_origin
parse_uri = refl

parse_connection-IsAccepted_example :
    (url : Url) × (read_url (trim uri) ≡ some url) × IsAccepted read_url url the_connection
parse_connection-IsAccepted_example =
    parse_connection-IsAccepted read_url uri the_connection parse_uri

abbrev other : Text
other = lit "%30123456789abcdef0123456789abcdeF"

read_credential : service_token_of (with_username parsed_uri credential) ≡ parsed credential
unfolding service_token_of warder.Base.decode_uri_component lit warder.Base.is_empty
read_credential = refl

read_other :
    service_token_of (with_username parsed_uri other)
    ≡ parsed (lit "0123456789abcdef0123456789abcdeF")
unfolding service_token_of warder.Base.decode_uri_component lit warder.Base.is_empty
read_other = refl

connection_of-IsSameButToken_example :
    IsSameButToken
      (connection_of read_url (with_username parsed_uri credential))
      (connection_of read_url (with_username parsed_uri other))
connection_of-IsSameButToken_example =
    connection_of-IsSameButToken read_url parsed_uri credential other credential
      (lit "0123456789abcdef0123456789abcdeF") read_credential read_other

pub connected : connection server start ≡ ok the_connection warm
unfolding connection warder.Env.use_cached warder.Env.store_parsed
connected = rw parse_uri refl

connection-eq-ok_example :
    (parse_connection read_url (some uri) ≡ parsed the_connection)
    × (warm.cached ≡ some the_connection)
connection-eq-ok_example = connection-eq-ok server start the_connection warm tt connected
