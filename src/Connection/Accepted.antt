-- ===== src/Connection/Accepted.antt =====
-- The connection that `parseConnection` returns, against the URI that it was given.
use warder.Base.{
  ◌≤◌, ◌≡◌, ◌≢◌, ◌⊎◌, inl, inr, refl, sym, arith, ap, subst, false, ◌&&◌, not, Option, none, some,
  [], ◌∷◌, ◌++◌, append-nil, append_assoc, lit, Text, is_empty, trim, length, Bool-cases,
  decode_uri_component,
}
use warder.Connection.{
  Url, Transport, https, http, Posture, development, production, Connection, Parsed, parsed,
  refused, transport_name, port_suffix, found_or, is_production, is_http, transport_of, posture_of,
  service_token_of, resolve_app_origin, connection_of, parse_connection, posture_name,
  drop_leading_slashes, drop_trailing_slashes, not_valid, build, Refusal, ◌>>=◌, refuse_if,
}
use warder.Connection.Sound.{
  >>=-eq-parsed, refuse_if-eq-parsed, not_empty, empty, States, transport_of_sound,
  service_token_sound, posture_of_sound, IsOrigin, resolve_sound,
}

-- The scheme of a transport.
abbrev pub scheme_name : Transport → Text
scheme_name https = lit "https"
scheme_name http = lit "http"

-- The host of the URI, with its port if it has one.
abbrev pub IsAuthority : Url → Text → Type 0
IsAuthority url s =
    ((url.port ≡ []) × (s ≡ url.hostname))
    ⊎ ((url.port ≢ []) × (s ≡ url.hostname ++ b':' ∷ url.port))

-- What connects the URI with the connection: nothing is defaulted but the origin of development, the
-- user name is the whole credential, and production speaks TLS.
pub record IsAccepted (new_url : Text → Option Url) (url : Url) (c : Connection) : Type 0 where
  pub scheme : States url.protocol c.transport
  pub whole_userinfo : url.password ≡ []
  pub token : decode_uri_component url.username ≡ some c.service_token
  pub long_token : 32 ≤ length c.service_token
  pub host : url.hostname ≢ []
  pub path : drop_trailing_slashes (drop_leading_slashes url.pathname) ≡ posture_name c.posture
  pub flag : c.is_production ≡ is_production c.posture
  pub encrypted : (c.posture ≡ development) ⊎ (c.transport ≡ https)
  pub origin : IsOrigin new_url url c.posture c.app_origin
  pub authority : Text
  pub reached : IsAuthority url authority
  pub address : c.core_api_url ≡ scheme_name c.transport ++ (lit "://" ++ authority)
  pub shown :
      c.redacted
      ≡ url.protocol ++ (lit "//[redacted]@" ++ (authority ++ b'/' ∷ posture_name c.posture))

encrypted_or_development :
    (p : Posture) (t : Transport)
    → (is_production p && is_http t) ≡ false
    → (p ≡ development) ⊎ (t ≡ https)
unfolding is_production is_http
encrypted_or_development development t h = inl refl
encrypted_or_development production https h = inr refl
encrypted_or_development production http h = cc

refused-ne-parsed :
    {A : Type 0} {r : Refusal} {a : A} → ◌≡◌ {A = Parsed A} (refused r) (parsed a) → ⊥
refused-ne-parsed h = cc

parsed-injective : {A : Type 0} {a b : A} → ◌≡◌ {A = Parsed A} (parsed a) (parsed b) → a ≡ b
parsed-injective h = cc

transport_name-scheme : (t : Transport) → transport_name t ≡ scheme_name t
unfolding transport_name
transport_name-scheme https = refl
transport_name-scheme http = refl

port_suffix-IsAuthority : (url : Url) → IsAuthority url (url.hostname ++ port_suffix url)
unfolding port_suffix
port_suffix-IsAuthority url = elim (Bool-cases (is_empty url.port)) [
  | inl e ↦ rw e (inl (empty url.port (ground (arith, e)), append-nil url.hostname))
  | inr e ↦ rw e (inr (not_empty url.port e, refl))
]

module _ (new_url : Text → Option Url) where
  build-IsAccepted :
      (url : Url) (t : Transport) (token : Text) (p : Posture) (origin : Text)
      → transport_of url.protocol ≡ parsed t
      → not (is_empty url.password) ≡ false
      → service_token_of url ≡ parsed token
      → is_empty url.hostname ≡ false
      → posture_of url.pathname ≡ parsed p
      → (is_production p && is_http t) ≡ false
      → resolve_app_origin new_url url p ≡ parsed origin
      → IsAccepted new_url url (build url t token p origin)
  unfolding build
  build-IsAccepted url t token p origin scheme no_password read has_name path safe resolved =
      let (decoded, long) = service_token_sound url token read in
      record {
        scheme = transport_of_sound url.protocol t scheme;
        whole_userinfo = empty url.password no_password;
        token = decoded;
        long_token = long;
        host = not_empty url.hostname has_name;
        path = posture_of_sound url.pathname p path;
        flag = refl;
        encrypted = encrypted_or_development p t safe;
        origin = resolve_sound new_url url p origin resolved;
        authority = url.hostname ++ port_suffix url;
        reached = port_suffix-IsAuthority url;
        address =
            ap (λ n. n ++ (lit "://" ++ (url.hostname ++ port_suffix url)))
              (transport_name-scheme t);
        shown =
            ap (λ s. url.protocol ++ (lit "//[redacted]@" ++ s))
              (sym (append_assoc url.hostname (port_suffix url) _));
      }

  connection_of-IsAccepted :
      (url : Url) (c : Connection) → connection_of new_url url ≡ parsed c → IsAccepted new_url url c
  unfolding connection_of
  connection_of-IsAccepted url c h0 =
      let (t, scheme, h1) = >>=-eq-parsed (transport_of url.protocol) _ h0 in
      let (x1, no_password, h2) = >>=-eq-parsed (refuse_if (not (is_empty url.password)) _) _ h1 in
      let (token, read, h3) = >>=-eq-parsed (service_token_of url) _ h2 in
      let (x3, has_name, h4) = >>=-eq-parsed (refuse_if (is_empty url.hostname) _) _ h3 in
      let (p, path, h5) = >>=-eq-parsed (posture_of url.pathname) _ h4 in
      let (x5, safe, h6) = >>=-eq-parsed (refuse_if (is_production p && is_http t) _) _ h5 in
      let (origin, resolved, h7) = >>=-eq-parsed (resolve_app_origin new_url url p) _ h6 in
      subst (IsAccepted new_url url) (parsed-injective h7) (
        build-IsAccepted url t token p origin scheme (refuse_if-eq-parsed _ _ x1 no_password) read
          (refuse_if-eq-parsed _ _ x3 has_name) path (refuse_if-eq-parsed _ _ x5 safe) resolved)

  found_or_sound : (o : Option Url) (url : Url) → found_or o not_valid ≡ parsed url → o ≡ some url
  found_or_sound none url h = cc
  found_or_sound (some u) url h = ap some (parsed-injective h)

  parse_connection-some :
      (raw : Text) (c : Connection)
      → parse_connection new_url (some raw) ≡ parsed c
      → (found_or (new_url (trim raw)) not_valid >>= connection_of new_url) ≡ parsed c
  unfolding parse_connection
  parse_connection-some raw c h = elim (Bool-cases (is_empty (trim raw))) [
    | inl e ↦ absurd (refused-ne-parsed (rw e at h))
    | inr e ↦ rw e at h
  ]

  -- Whatever text `parseConnection` accepts is a URL that fixes the connection: its scheme the
  -- transport, its path the posture, its user name (with no password beside it) a token of at least 32
  -- units, and its host, with its port if it has one, the address of the core API and the text that
  -- stands for the URI in logs. In production the transport is https and the browser origin is declared, with
  -- https; only development falls back to a default origin.
  pub parse_connection-IsAccepted :
      (raw : Text) (c : Connection)
      → parse_connection new_url (some raw) ≡ parsed c
      → (url : Url) × (new_url (trim raw) ≡ some url) × IsAccepted new_url url c
  parse_connection-IsAccepted raw c h =
      let (url, found, accepted) =
        >>=-eq-parsed (found_or (new_url (trim raw)) not_valid) (connection_of new_url)
          (parse_connection-some raw c h) in
      (url, found_or_sound (new_url (trim raw)) url found, connection_of-IsAccepted url c accepted)
