-- ===== src/Connection.antt =====
-- web/lib/connection.ts: the parser of the connection URI.
-- `new URL` is the platform's: its result, or its failure, is a parameter of the parser.
-- `param` of a `Url` is `searchParams.get`.
pub mod Sound
pub mod Accepted
pub mod Secrecy
use warder.Base.{
  ℕ, ◌≡◌, Bool, true, false, ◌&&◌, ◌||◌, not, Option, none, some, List, [], ◌∷◌, ◌++◌, Text, lit,
  text_eq, is_empty, trim, length, ltb, ◌==◌, if◌then◌else◌, decode_uri_component,
}

-- The parts of a `URL` that the source reads; `param` is `searchParams.get`.
pub record Url : Type 0 where
  pub protocol : Text
  pub username : Text
  pub password : Text
  pub hostname : Text
  pub port : Text
  pub pathname : Text
  pub host : Text
  pub origin : Text
  pub href : Text
  pub param : Text → Option Text

pub data Transport : Type 0 where
  https http : Transport

pub data Posture : Type 0 where
  development production : Posture

pub record Connection : Type 0 where
  pub core_api_url : Text
  pub service_token : Text
  pub posture : Posture
  pub transport : Transport
  pub app_origin : Text
  pub is_production : Bool
  pub redacted : Text

-- One constructor for each error that `parseConnection` throws, with what its message quotes.
-- `malformed_token` is the `URIError` of `decodeURIComponent`, which nothing catches.
pub data Refusal : Type 0 where
  not_set not_valid : Refusal
  unknown_scheme : Text → Refusal
  has_password malformed_token no_token short_token no_host no_path : Refusal
  unknown_path : Text → Refusal
  insecure_production : Refusal
  invalid_origin : Text → Refusal
  insecure_origin no_origin : Refusal

pub data Parsed {ℓ} (A : Type ℓ) : Type ℓ where
  parsed : A → Parsed A
  refused : Refusal → Parsed A

infixl 5 ◌>>=◌ ◌>>◌
abbrev pub ◌>>=◌ {ℓ κ} : {A : Type ℓ} {B : Type κ} → Parsed A → (A → Parsed B) → Parsed B
parsed a >>= f = f a
refused r >>= f = refused r

abbrev pub ◌>>◌ {ℓ} : {B : Type ℓ} → Parsed (Unit {0}) → Parsed B → Parsed B
m >> k = m >>= λ _. k

-- Go on unless the test holds.
abbrev pub refuse_if : Bool → Refusal → Parsed (Unit {0})
refuse_if true r = refused r
refuse_if false r = parsed tt

abbrev pub found_or {ℓ} : {A : Type ℓ} → Option A → Refusal → Parsed A
found_or none r = refused r
found_or (some a) r = parsed a

abbrev pub min_token_length : ℕ
min_token_length = 32

unfoldable pub is_production : Posture → Bool
is_production development = false
is_production production = true

unfoldable pub is_http : Transport → Bool
is_http https = false
is_http http = true

unfoldable pub transport_name : Transport → Text
transport_name https = lit "https"
transport_name http = lit "http"

-- `.replace(":", "")`: the first colon goes.
unfoldable pub drop_colon : Text → Text
drop_colon [] = []
drop_colon (c ∷ s) = if c == b':' then s else c ∷ drop_colon s

unfoldable pub transport_of : Text → Parsed Transport
transport_of protocol =
    if text_eq protocol (lit "warder:")
    then parsed https
    else if text_eq protocol (lit "warder+insecure:")
    then parsed http
    else refused (unknown_scheme (drop_colon protocol))

-- `.replace(/^\/+|\/+$/g, "")`
unfoldable pub drop_leading_slashes : Text → Text
drop_leading_slashes [] = []
drop_leading_slashes (c ∷ s) = if c == b'/' then drop_leading_slashes s else c ∷ s

unfoldable pub keep_unless_slash : ℕ → Text → Text
keep_unless_slash c [] = if c == b'/' then [] else c ∷ []
keep_unless_slash c (d ∷ s) = c ∷ d ∷ s

unfoldable pub drop_trailing_slashes : Text → Text
drop_trailing_slashes [] = []
drop_trailing_slashes (c ∷ s) = keep_unless_slash c (drop_trailing_slashes s)

unfoldable pub posture_of : Text → Parsed Posture
unfolding drop_leading_slashes drop_trailing_slashes keep_unless_slash
posture_of pathname =
    let path = drop_trailing_slashes (drop_leading_slashes pathname) in
    if text_eq path (lit "development")
    then parsed development
    else if text_eq path (lit "production")
    then parsed production
    else if is_empty path
    then refused no_path
    else refused (unknown_path path)

unfoldable pub service_token_of : Url → Parsed Text
service_token_of url = do
  token ← found_or (decode_uri_component url.username) malformed_token
  refuse_if (is_empty token) no_token
  refuse_if (ltb (length token) min_token_length) short_token
  parsed token

unfoldable pub port_suffix : Url → Text
port_suffix url = if is_empty url.port then [] else b':' ∷ url.port

unfoldable pub posture_name : Posture → Text
posture_name development = lit "development"
posture_name production = lit "production"

-- The object that `parseConnection` returns.
unfoldable pub build : Url → Transport → Text → Posture → Text → Connection
unfolding transport_name port_suffix posture_name
build url transport token posture origin = record {
  core_api_url = transport_name transport ++ (lit "://" ++ (url.hostname ++ port_suffix url));
  service_token = token;
  posture = posture;
  transport = transport;
  app_origin = origin;
  is_production = is_production posture;
  redacted =
      url.protocol
      ++ (lit "//[redacted]@"
          ++ (url.hostname ++ (port_suffix url ++ (b'/' ∷ posture_name posture))));
}

module _ (new_url : Text → Option Url) where
  -- `declared` is the origin parameter that is present and not empty.
  unfoldable pub declared_origin : Text → Posture → Parsed Text
  declared_origin declared posture = do
    origin ← found_or (new_url declared) (invalid_origin declared)
    refuse_if (not (text_eq origin.protocol (lit "https:")) && is_production posture)
        insecure_origin
    parsed origin.origin

  unfoldable pub default_origin : Posture → Parsed Text
  default_origin production = refused no_origin
  default_origin development = parsed (lit "http://localhost:3000")

  unfoldable pub resolve_app_origin : Url → Posture → Parsed Text
  unfolding declared_origin default_origin
  resolve_app_origin url posture = elim (url.param (lit "origin")) [
    | none ↦ default_origin posture
    | some declared ↦
        if is_empty declared then default_origin posture else declared_origin declared posture
  ]

  unfoldable pub connection_of : Url → Parsed Connection
  unfolding build
  connection_of url = do
    transport ← transport_of url.protocol
    refuse_if (not (is_empty url.password)) has_password
    token ← service_token_of url
    refuse_if (is_empty url.hostname) no_host
    posture ← posture_of url.pathname
    refuse_if (is_production posture && is_http transport) insecure_production
    origin ← resolve_app_origin url posture
    parsed (build url transport token posture origin)

  -- `raw` is `none` for `undefined`.
  unfoldable pub parse_connection : Option Text → Parsed Connection
  parse_connection none = refused not_set
  parse_connection (some raw) =
      if is_empty (trim raw)
      then refused not_set
      else found_or (new_url (trim raw)) not_valid >>= connection_of
