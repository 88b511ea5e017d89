-- ===== src/Tests.antt =====
-- A server in production behind `https://app.example`, the state that it starts in, and a request of
-- a signed-in browser: the data that the tests of the other files run on.
mod Parsing
mod Guarding
mod Encoding
mod Serving
mod Dialogs
mod Views
mod Forms
mod Documents
use warder.Base.{
  ℕ, ◌≡◌, Bool, true, false, Option, none, some, List, [], ◌∷◌, Text, lit, text_eq, if◌then◌else◌,
  Json, null, str, obj, Fields, no_fields, object,
}
use warder.Connection.{Url, Transport, https, http, Posture, development, production, Connection}
use warder.World.{Host, World, Request, CoreRequest, Reply, failed, answered, Cookie}

abbrev pub credential : Text
credential = lit "0123456789abcdef0123456789abcdef"

abbrev pub uri : Text
uri =
    lit
      "warder://0123456789abcdef0123456789abcdef@core.example/production?origin=https://app.example"

abbrev pub app : Text
app = lit "https://app.example"

abbrev pub no_param : Text → Option Text
no_param k = none

abbrev pub origin_param : Text → Option Text
origin_param k = if text_eq k (lit "origin") then some app else none

abbrev pub parsed_uri : Url
parsed_uri = record {
  protocol = lit "warder:";
  username = credential;
  password = [];
  hostname = lit "core.example";
  port = [];
  pathname = lit "/production";
  host = lit "core.example";
  origin = lit "null";
  href = uri;
  param = origin_param;
}

abbrev pub parsed_app : Url
parsed_app = record {
  protocol = lit "https:";
  username = [];
  password = [];
  hostname = lit "app.example";
  port = [];
  pathname = lit "/";
  host = lit "app.example";
  origin = app;
  href = lit "https://app.example/";
  param = no_param;
}

abbrev pub read_url : Text → Option Url
read_url s =
    if text_eq s uri then some parsed_uri else if text_eq s app then some parsed_app else none

abbrev pub the_connection : Connection
the_connection = record {
  core_api_url = lit "https://core.example";
  service_token = credential;
  posture = production;
  transport = https;
  app_origin = app;
  is_production = true;
  redacted = lit "warder://[redacted]@core.example/production";
}

abbrev pub no_text : Text → Option Text
no_text k = none

abbrev pub answer : List CoreRequest → CoreRequest → Reply
answer calls request = answered 200 (some null)

abbrev pub server : Host
server = record {
  warder_url = some uri;
  runtime_url = none;
  new_url = read_url;
  url_text = λ url. url.href;
  incoming = no_text;
  fetch = answer;
  now = 1000;
  date = λ v. some 61000;
  text_of = λ v. lit "session";
  random_bytes = λ n. 7 ∷ 200 ∷ [];
  query_text = λ params. [];
}

abbrev pub jar : Text → Option Cookie
jar name =
    if text_eq name (lit "warder_csrf")
    then some (record {
      value = lit "07c8";
      http_only = false;
      secure = true;
      same_site = lit "strict";
      path = lit "/";
      max_age = some 60;
    })
    else none

abbrev pub start : World
start = record { cached = none; cookies = jar; calls = []; draws = 0 }

abbrev pub warm : World
warm = record { cached = some the_connection; cookies = jar; calls = []; draws = 0 }

abbrev pub sent : Text → Option Text
sent name =
    if text_eq name (lit "origin")
    then some app
    else if text_eq name (lit "x-csrf-token")
    then some (lit "07c8")
    else none

abbrev pub post : Request
post = record {
  method = lit "POST";
  header = sent;
  json = some (object ((lit "name", some (str (lit " billing "))) ∷ []));
  query = no_text;
}
