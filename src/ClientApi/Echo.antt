-- ===== src/ClientApi/Echo.antt =====
-- The token that the server stores is the one that the browser sends back.
use warder.Base.{
  ℕ, ◌/◌, ◌%◌, ◌<◌, ◌≤◌, ◌≡◌, refl, sym, ◌∙◌, ap, arith, ◌⊎◌, inl, inr, false, Option, some, List,
  [], ◌∷◌, ◌++◌, Text, lit, strip_prefix, is_empty, All, decode_uri_component, decode-plain, Json,
}
use warder.ClientApi.{cookie_token, read_csrf_token, is_reading, token_header}
use warder.ClientApi.Finding.{cookie_text, IsNot, IsOther, cookie_token-found}
use warder.Csrf.{check_token, check_token_of, is_missing, text_or_empty}
use warder.Csrf.Timing.{timing_safe_equal_iff}
use warder.Session.{
  csrf_cookie, csrf_header, hex_unit, hex_text, get_csrf_token, start_session, cookie_value,
}
use warder.Session.Cookies.{start_session-IsStarted}
use warder.World.{Host, World, Request, ok}

-- The units of a token.
hex_unit-IsNot : (d n : ℕ) → n < 16 → (d < 48) ⊎ ((58 ≤ d) × (d < 97)) → IsNot d (hex_unit n)
unfolding hex_unit
hex_unit-IsNot d n small far = elim far [ inl low ↦ ground arith | inr (low, high) ↦ ground arith ]

hex_text-IsNot :
    (d : ℕ) (bytes : List ℕ)
    → (d < 48) ⊎ ((58 ≤ d) × (d < 97))
    → All (λ b. b < 256) bytes
    → All (IsNot d) (hex_text bytes)
unfolding hex_text
hex_text-IsNot d [] far small = tt
hex_text-IsNot d (b ∷ bytes) far (here, small) = (
  hex_unit-IsNot d (b / 16) (omega arith) far,
  (hex_unit-IsNot d (b % 16) (omega arith) far, hex_text-IsNot d bytes far small),
)

hex_text_not_empty : (bytes : List ℕ) → is_empty bytes ≡ false → is_empty (hex_text bytes) ≡ false
unfolding hex_text is_empty
hex_text_not_empty [] h = h
hex_text_not_empty (b ∷ bytes) h = refl

read_found :
    (cookie token : Text)
    → cookie_token cookie ≡ some token
    → is_empty token ≡ false
    → decode_uri_component token ≡ some token
    → read_csrf_token cookie ≡ some token
unfolding read_csrf_token strip_prefix lit
read_found cookie token taken full decoded = rw (taken, full) decoded

module _ (bytes : List ℕ) (small : All (λ b. b < 256) bytes) (drawn : is_empty bytes ≡ false) where
  read_csrf_token-found :
      (before after : List (Text × Text))
      → All IsOther before
      → read_csrf_token (cookie_text (before ++ (lit "warder_csrf", hex_text bytes) ∷ after))
        ≡ some (hex_text bytes)
  read_csrf_token-found before after h =
      read_found _ (hex_text bytes)
        (cookie_token-found (hex_text bytes) after
          (hex_text-IsNot b';' bytes (inr (omega arith, omega arith)) small) before h)
        (hex_text_not_empty bytes drawn)
        (decode-plain (hex_text bytes) (hex_text-IsNot b'%' bytes (inl (omega arith)) small))

some-injective : {x y : Option Text} → ◌≡◌ {A = Option (Option Text)} (some x) (some y) → x ≡ y
some-injective e = cc

-- The check compares the cookie with the header.
check_token_same :
    (t : Text) (request : Request) (w : World)
    → cookie_value (w.cookies csrf_cookie) ≡ some t
    → request.header csrf_header ≡ some t
    → is_empty t ≡ false
    → check_token request w ≡ ok tt w
unfolding check_token get_csrf_token check_token_of is_missing text_or_empty
check_token_same t request w stored sent full =
    let same = (timing_safe_equal_iff t t).1 refl in rw (stored, sent, full, same) refl

module _ (host : Host) (token : Option Json) (expires_at : Option ℕ) (w w' : World) (t : Text)
    (small : All (λ b. b < 256) (host.random_bytes w.draws))
    (drawn : is_empty (host.random_bytes w.draws) ≡ false) (before after : List (Text × Text))
    (others : All IsOther before) (cookie method : Text) (request : Request) where
  stored_token :
      start_session host token expires_at w ≡ ok t w'
      → (cookie_value (w'.cookies csrf_cookie) ≡ some t)
        × (t ≡ hex_text (host.random_bytes w.draws))
  unfolding cookie_value
  stored_token started =
      let (u, v, run, facts) = start_session-IsStarted host token expires_at w in
      let same : ok u v ≡ ok t w' = sym run ∙ started in
      let token_same : u ≡ t = cc in
      let world_same : v ≡ w' = cc in
      (
        rw (← world_same, facts.csrf_stored) (ap some (facts.csrf_value ∙ token_same)),
        sym token_same ∙ facts.fresh,
      )

  -- The token that a sign-in stores is read back by the browser, whatever other cookies stand before
  -- and behind it, and a request that carries what the browser then sends passes the check of its token:
  -- no session can be started that shuts its own browser out.
  pub start_session-check_token :
      start_session host token expires_at w ≡ ok t w'
      → cookie ≡ cookie_text (before ++ (lit "warder_csrf", t) ∷ after)
      → is_reading method ≡ false
      → token_header method cookie ≡ some (request.header csrf_header)
      → check_token request w' ≡ ok tt w'
  unfolding token_header
  start_session-check_token started shown writing sent =
      let (stored, fresh) = stored_token started in
      let bytes = host.random_bytes w.draws in
      let full : is_empty t ≡ false = rw fresh (hex_text_not_empty bytes drawn) in
      let read : read_csrf_token cookie ≡ some t =
        rw (shown, fresh) (read_csrf_token-found bytes small drawn before after others) in
      let header = some-injective (sym sent ∙ rw (writing, read) refl) in
      check_token_same t request w' stored header full
