-- ===== src/Middleware.antt =====
-- web/middleware.ts: the security headers of every page, and the nonce of its policy.
pub mod Policy
use warder.Base.{
  ℕ, Bool, false, ◌&&◌, ◌||◌, Option, none, some, List, [], ◌∷◌, ◌++◌, Text, lit, text_eq,
  starts_with, strip_prefix, leb, ◌==◌, if◌then◌else◌,
}
use warder.WebAuthn.{btoa}

-- A `Headers` object, by lower-case names; `set` replaces.
abbrev pub Headers : Type 0
Headers = Text → Option Text

unfoldable pub set : Text → Text → Headers → Headers
set name value headers k = if text_eq k name then some value else headers k

-- What the middleware reads of a page request.
pub record PageRequest : Type 0 where
  pub headers : Headers
  pub protocol : Text
  pub pathname : Text

-- What it returns: the headers of the request as the page sees it, and those of the response.
pub record Page : Type 0 where
  pub forwarded : Headers
  pub response : Headers

-- `generateNonce`, of the 16 bytes drawn.
unfoldable pub generate_nonce : List ℕ → Text
generate_nonce bytes = btoa bytes

unfoldable pub before_nonce : Text
before_nonce = lit "default-src 'self'; script-src 'self' 'nonce-"

-- The directives from the nonce on.
unfoldable pub after_nonce : Bool → Text
after_nonce is_development =
    lit "' 'strict-dynamic' https: 'unsafe-inline'"
    ++ ((if is_development then lit " 'unsafe-eval'" else [])
        ++ (lit
              "; style-src 'self' 'unsafe-inline'; img-src 'self' data: blob:; font-src 'self' data:; "
            ++ ((if is_development
                  then lit "connect-src 'self' ws: wss:"
                  else lit "connect-src 'self'")
                ++ lit
                    "; object-src 'none'; base-uri 'none'; form-action 'self'; frame-ancestors 'none'; upgrade-insecure-requests")))

-- The joined `csp`.
unfoldable pub policy : Bool → Text → Text
unfolding before_nonce after_nonce
policy is_development nonce = before_nonce ++ (nonce ++ after_nonce is_development)

-- `[\w-]`
unfoldable pub is_name_unit : ℕ → Bool
is_name_unit c =
    leb b'0' c && leb c b'9'
    || leb b'A' c && leb c b'Z'
    || leb b'a' c && leb c b'z'
    || c == b'_'
    || c == b'-'

-- `[\w-]+\.png` to the end of the text.
unfoldable pub is_png_rest : Text → Bool
unfolding is_name_unit
is_png_rest [] = false
is_png_rest (c ∷ s) = is_name_unit c && (text_eq s (lit ".png") || is_png_rest s)

unfoldable pub is_image_named : Text → Text → Bool
unfolding is_png_rest
is_image_named name pathname = elim (strip_prefix name pathname) [
  | none ↦ false
  | some rest ↦ is_png_rest rest
]

unfoldable pub is_public_page : Text → Bool
unfolding is_image_named
is_public_page pathname =
    text_eq pathname (lit "/")
    || text_eq pathname (lit "/docs")
    || starts_with pathname (lit "/docs/")
    || text_eq pathname (lit "/manifest.webmanifest")
    || is_image_named (lit "/favicon-") pathname
    || is_image_named (lit "/icon-") pathname
    || is_image_named (lit "/apple-touch-icon-") pathname
    || is_image_named (lit "/warder-") pathname

unfoldable pub cache_control : Text → Text
unfolding is_public_page
cache_control pathname =
    if is_public_page pathname
    then lit "public, max-age=0, must-revalidate"
    else lit "no-store, must-revalidate"

-- `Strict-Transport-Security`, over TLS only.
unfoldable pub set_transport_security : Text → Headers → Headers
unfolding set
set_transport_security protocol headers =
    if text_eq protocol (lit "https:")
    then set (lit "strict-transport-security") (lit "max-age=63072000; includeSubDomains; preload")
        headers
    else headers

-- The headers set on every response.
unfoldable pub set_security : Text → Headers → Headers
unfolding set
set_security csp headers = set (lit "x-dns-prefetch-control") (lit "off") (
    set (lit "cross-origin-resource-policy") (lit "same-origin") (
      set (lit "cross-origin-opener-policy") (lit "same-origin") (
        set (lit "permissions-policy")
          (lit "geolocation=(), camera=(), microphone=(), payment=(), usb=(), interest-cohort=()")
          (set (lit "referrer-policy") (lit "no-referrer") (
            set (lit "x-frame-options") (lit "DENY") (
              set (lit "x-content-type-options") (lit "nosniff")
                (set (lit "content-security-policy") csp headers)))))))

-- `next` holds the headers of `NextResponse.next`; `bytes` are the bytes drawn.
unfoldable pub middleware : Bool → Headers → List ℕ → PageRequest → Page
unfolding set policy generate_nonce set_security set_transport_security cache_control
middleware is_development next bytes request =
    let nonce = generate_nonce bytes in
    let csp = policy is_development nonce in
    record {
      forwarded =
          set (lit "content-security-policy") csp (set (lit "x-nonce") nonce request.headers);
      response =
          set (lit "cache-control") (cache_control request.pathname)
            (set_transport_security request.protocol (set_security csp next));
    }
