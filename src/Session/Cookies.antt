-- ===== src/Session/Cookies.antt =====
-- The two cookies of a session.
use warder.Base.{
  ℕ, ◌+◌, ◌≡◌, ◌⊎◌, inl, inr, refl, ◌∙◌, ap, Bool, true, false, Option, none, some, Text, lit,
  text_eq, text_eq_refl, Json,
}
use warder.Connection.{Connection}
use warder.Env.{connection}
use warder.Env.Laws.{connection-SameEffects}
use warder.Session.{
  session_cookie, csrf_cookie, put_cookie, hex_text, end_session, secure_cookies, max_age_of,
  start_session,
}
use warder.World.{Host, World, Cookie, ok, Outcome-cases, final}

-- The names differ.
names : text_eq csrf_cookie session_cookie ≡ false
unfolding csrf_cookie session_cookie lit text_eq
names = refl

names' : text_eq session_cookie csrf_cookie ≡ false
unfolding csrf_cookie session_cookie lit text_eq
names' = refl

put_cookie_same :
    (k : Text) (c : Option Cookie) (jar : Text → Option Cookie) → put_cookie k c jar k ≡ c
unfolding put_cookie
put_cookie_same k c jar = rw (text_eq_refl k)

put_cookie_other :
    (k j : Text) (c : Option Cookie) (jar : Text → Option Cookie)
    → text_eq k j ≡ false
    → put_cookie k c jar j ≡ jar j
unfolding put_cookie
put_cookie_other k j c jar e = rw e

module _ (host : Host) where
  -- A cookie of a session that starts in the state `w`: strict, for the whole site, secure unless a
  -- connection says development, and as old as the session may get.
  pub record IsSessionCookie (w : World) (expires_at : Option ℕ) (c : Cookie) : Type 0 where
    pub same_site : c.same_site ≡ lit "strict"
    pub path : c.path ≡ lit "/"
    pub max_age : c.max_age ≡ max_age_of host expires_at
    pub secure :
        (c.secure ≡ true)
        ⊎ ((judge : Connection) × (v : World) × (connection host w ≡ ok judge v)
            × (c.secure ≡ judge.is_production))

  -- What `startSession` leaves behind.
  pub record IsStarted (w : World) (token : Option Json) (expires_at : Option ℕ) (csrf_token : Text)
      (w' : World) : Type 0 where
    pub session : Cookie
    pub csrf : Cookie
    pub session_stored : w'.cookies session_cookie ≡ some session
    pub csrf_stored : w'.cookies csrf_cookie ≡ some csrf
    pub session_value : session.value ≡ host.text_of token
    pub csrf_value : csrf.value ≡ csrf_token
    pub fresh : csrf_token ≡ hex_text (host.random_bytes w.draws)
    pub hidden : session.http_only ≡ true
    pub readable : csrf.http_only ≡ false
    pub session_flags : IsSessionCookie w expires_at session
    pub csrf_flags : IsSessionCookie w expires_at csrf
    pub same_secure : session.secure ≡ csrf.secure
    pub drawn : w'.draws ≡ w.draws + 1
    pub calls : w'.calls ≡ w.calls

  secure-cases :
      (w : World)
      → (secure : Bool) × (v : World) × (secure_cookies host w ≡ ok secure v)
        × (v ≡ final (connection host w))
        × ((secure ≡ true)
            ⊎ ((judge : Connection) × (u : World) × (connection host w ≡ ok judge u)
                × (secure ≡ judge.is_production)))
  unfolding secure_cookies
  secure-cases w = elim (Outcome-cases (connection host w)) [
    | inl (c, u, e) ↦
        (c.is_production, u, rw (e, secure_cookies) refl, rw e refl, inr (c, u, e, refl))
    | inr (f, u, e) ↦ (true, u, rw (e, secure_cookies) refl, rw e refl, inl refl)
  ]

  -- The two cookies and the state of a run whose cookies are secure or not.
  abbrev cookie_of : Text → Bool → Bool → Option ℕ → Cookie
  cookie_of value http_only secure expires_at = record {
    value = value;
    http_only = http_only;
    secure = secure;
    same_site = lit "strict";
    path = lit "/";
    max_age = max_age_of host expires_at;
  }

  abbrev started : World → Option Json → Bool → Option ℕ → World
  started v token secure expires_at = record v {
    cookies =
        put_cookie csrf_cookie
          (some (cookie_of (hex_text (host.random_bytes v.draws)) false secure expires_at))
          (put_cookie session_cookie (some (cookie_of (host.text_of token) true secure expires_at))
            v.cookies);
    draws = v.draws + 1;
  }

  start_session-run :
      (token : Option Json) (expires_at : Option ℕ) (w v : World) (secure : Bool)
      → secure_cookies host w ≡ ok secure v
      → start_session host token expires_at w
        ≡ ok (hex_text (host.random_bytes v.draws)) (started v token secure expires_at)
  unfolding start_session
  start_session-run token expires_at w v secure e = rw (e, start_session)

  IsSecure : World → Bool → Type 0
  IsSecure w secure =
      (secure ≡ true)
      ⊎ ((judge : Connection) × (u : World) × (connection host w ≡ ok judge u)
          × (secure ≡ judge.is_production))

  started-IsStarted :
      (token : Option Json) (expires_at : Option ℕ) (w v : World) (secure : Bool)
      → v ≡ final (connection host w)
      → IsSecure w secure
      → IsStarted w token expires_at
          (hex_text (host.random_bytes v.draws))
          (started v token secure expires_at)
  unfolding IsSecure
  started-IsStarted token expires_at w v secure e s =
      let effects = connection-SameEffects host w in
      let draws : v.draws ≡ w.draws = rw e effects.draws in
      let flags : (value : Text) (http_only : Bool)
          → IsSessionCookie w expires_at (cookie_of value http_only secure expires_at) =
        λ value http_only. record { same_site = refl; path = refl; max_age = refl; secure = s } in
      record {
        session = cookie_of (host.text_of token) true secure expires_at;
        csrf = cookie_of (hex_text (host.random_bytes v.draws)) false secure expires_at;
        session_stored =
            put_cookie_other csrf_cookie session_cookie _ _ names
            ∙ put_cookie_same session_cookie _ v.cookies;
        csrf_stored = put_cookie_same csrf_cookie _ _;
        session_value = refl;
        csrf_value = refl;
        fresh = ap (λ n. hex_text (host.random_bytes n)) draws;
        hidden = refl;
        readable = refl;
        session_flags = flags _ _;
        csrf_flags = flags _ _;
        same_secure = refl;
        drawn = ap (λ n. n + 1) draws;
        calls = rw e effects.calls;
      }

  -- `startSession` always succeeds. It stores the credential in a cookie that scripts cannot read,
  -- and a fresh token, which it returns, in one that they can; both are strict, for the whole site,
  -- of one age, and secure unless a connection can be read and says development.
  pub start_session-IsStarted :
      (token : Option Json) (expires_at : Option ℕ) (w : World)
      → (t : Text) × (w' : World) × (start_session host token expires_at w ≡ ok t w')
        × IsStarted w token expires_at t w'
  start_session-IsStarted token expires_at w =
      let (secure, v, e, same, s) = secure-cases w in
      (
        _,
        _,
        start_session-run token expires_at w v secure e,
        started-IsStarted token expires_at w v secure same (unfold IsSecure in s),
      )

-- `endSession` leaves neither cookie, and every other cookie as it was.
pub end_session_lem :
    (w : World)
    → (w' : World) × (end_session w ≡ ok tt w')
      × (w'.cookies session_cookie ≡ none)
      × (w'.cookies csrf_cookie ≡ none)
      × ((name : Text)
          → text_eq session_cookie name ≡ false
          → text_eq csrf_cookie name ≡ false
          → w'.cookies name ≡ w.cookies name)
unfolding end_session
end_session_lem w = (
  record w { cookies = put_cookie csrf_cookie none (put_cookie session_cookie none w.cookies) },
  refl,
  put_cookie_other csrf_cookie session_cookie _ _ names
      ∙ put_cookie_same session_cookie none w.cookies,
  put_cookie_same csrf_cookie none _,
  λ name a b. put_cookie_other csrf_cookie name _ _ b ∙ put_cookie_other session_cookie name _ _ a,
)
