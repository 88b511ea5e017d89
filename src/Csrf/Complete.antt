-- ===== src/Csrf/Complete.antt =====
-- Nothing else is asked of a request than what `IsPassed` says.
use warder.Base.{
  ◌≡◌, ◌≢◌, ◌↔◌, inl, inr, refl, sym, ◌∙◌, subst, arith, true, false, some, [], ◌∷◌, Text, lit,
  text_eq_iff, is_empty,
}
use warder.Connection.{Url, Connection}
use warder.Csrf.{
  is_safe_method, has_host, host_matches, origin_accepted, check_origin, check_token, assert_csrf,
}
use warder.Csrf.Laws.{FromHost, IsAllowed, HasToken, HasOrigin}
use warder.Csrf.Passes.{IsPassed, assert_csrf_sound, assert_csrf_unsafe, connection-cookies}
use warder.Csrf.Timing.{timing_safe_equal_iff}
use warder.Env.{connection}
use warder.Session.{get_csrf_token}
use warder.World.{Host, World, Request, ok}

text_not_empty : (s : Text) → s ≢ [] → is_empty s ≡ false
unfolding is_empty
text_not_empty [] h = absurd (h refl)
text_not_empty (c ∷ s) h = refl

check_token_complete :
    (request : Request) (w : World) → HasToken w.cookies request → check_token request w ≡ ok tt w
unfolding check_token get_csrf_token
check_token_complete request w (token, stored, sent, some_text) =
    let equal = (timing_safe_equal_iff token token).1 refl in
    rw (stored, sent) (ground (arith, equal, text_not_empty token some_text))

module _ (host : Host) where
  found_host :
      (origin name : Text) (url : Url)
      → host.new_url origin ≡ some url
      → url.host ≡ name
      → has_host host origin name ≡ true
  unfolding has_host
  found_host origin name url found same = rw (found, has_host) ((text_eq_iff url.host name).1 same)

  FromHost-matches :
      (origin : Text) (request : Request)
      → FromHost host origin request
      → host_matches host origin (request.header (lit "host")) ≡ true
  unfolding host_matches
  FromHost-matches origin request (name, url, sent, some_text, found, same) =
      rw sent (ground (arith, text_not_empty name some_text, found_host origin name url found same))

  allowed_complete :
      (c : Connection) (origin : Text) (request : Request)
      → IsAllowed host c origin request
      → origin_accepted host c origin request ≡ true
  unfolding origin_accepted
  allowed_complete c origin request (inl same) = ground (arith, text_eq_iff origin c.app_origin)
  allowed_complete c origin request (inr (dev, from)) =
      ground (arith, FromHost-matches origin request from)

  check_origin_complete :
      (request : Request) (w u : World) (c : Connection)
      → connection host w ≡ ok c u
      → HasOrigin host c request
      → check_origin host request w ≡ ok tt u
  unfolding check_origin
  check_origin_complete request w u c e (origin, announced, some_text, allowed) = rw announced (
      ground (arith, e, text_not_empty origin some_text, allowed_complete c origin request allowed))

  module _ (request : Request) (unsafe : is_safe_method request ≡ false) where
    assert_csrf_complete :
        (w u : World) (c : Connection)
        → connection host w ≡ ok c u
        → IsPassed host c w request
        → assert_csrf host request w ≡ ok tt u
    assert_csrf_complete w u c e p =
        let token =
          subst (λ jar. HasToken jar request) (sym (connection-cookies host w u c e)) p.token in
        assert_csrf_unsafe host request unsafe w
        ∙ rw (check_origin_complete request w u c e p.origin) (check_token_complete request u token)

    -- A request whose method may change state passes `assertCsrf` exactly when the connection can be
    -- read, the request announces an accepted origin (the declared one, or in development the host
    -- that it was sent to), and its header repeats the token of its cookie, which is not empty.
    pub assert_csrf_iff :
        (w u : World)
        → (assert_csrf host request w ≡ ok tt u)
          ↔ ((c : Connection) × (connection host w ≡ ok c u) × IsPassed host c w request)
    assert_csrf_iff w u =
        (assert_csrf_sound host request unsafe w u, λ (c, e, p). assert_csrf_complete w u c e p)
