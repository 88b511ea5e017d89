-- ===== src/Csrf/Laws.antt =====
-- Which requests pass the checks, and what a refused one changes.
use warder.Base.{
  ◌≡◌, ◌≢◌, ◌⊎◌, inl, inr, refl, sym, ◌∙◌, ap, arith, true, false, Option, none, some, [], ◌∷◌,
  Text, lit, text_eq, text_eq_iff, is_empty, Bool-cases, Option-cases,
}
use warder.Connection.{Url, Connection}
use warder.Csrf.{
  timing_safe_equal, is_missing, text_or_empty, has_host, host_matches, origin_accepted,
  check_origin, check_token,
}
use warder.Csrf.Timing.{timing_safe_equal_iff}
use warder.Env.{connection}
use warder.Session.{csrf_header, csrf_cookie, cookie_value, get_csrf_token}
use warder.World.{Host, World, Request, Cookie, ok}

-- The browser's own host, which only development accepts.
abbrev pub FromHost : Host → Text → Request → Type 0
FromHost host origin request =
    (name : Text) × (url : Url) × (request.header (lit "host") ≡ some name)
    × (name ≢ [])
    × (host.new_url origin ≡ some url)
    × (url.host ≡ name)

abbrev pub IsAllowed : Host → Connection → Text → Request → Type 0
IsAllowed host c origin request =
    (origin ≡ c.app_origin) ⊎ ((c.is_production ≡ false) × FromHost host origin request)

pub check_token_sound :
    (request : Request) (w v : World)
    → check_token request w ≡ ok tt v
    → (v ≡ w)
      × (is_missing (cookie_value (w.cookies csrf_cookie)) ≡ false)
      × (is_missing (request.header csrf_header) ≡ false)
      × (timing_safe_equal
            (text_or_empty (cookie_value (w.cookies csrf_cookie)))
            (text_or_empty (request.header csrf_header))
          ≡ true)
unfolding check_token get_csrf_token
check_token_sound request w v h = ground arith

-- What the two parts of the check read off a request that passes.
abbrev pub HasToken : (Text → Option Cookie) → Request → Type 0
HasToken jar request =
    (token : Text) × (cookie_value (jar csrf_cookie) ≡ some token)
    × (request.header csrf_header ≡ some token)
    × (token ≢ [])

missing_sound :
    (o : Option Text)
    → is_missing o ≡ false
    → (s : Text) × (o ≡ some s) × (s ≢ []) × (text_or_empty o ≡ s)
unfolding is_missing text_or_empty is_empty
missing_sound none h = cc
missing_sound (some []) h = cc
missing_sound (some (c ∷ s)) h = (c ∷ s, refl, (λ e. cc), refl)

pub token_sound :
    (request : Request) (w v : World) → check_token request w ≡ ok tt v → HasToken w.cookies request
token_sound request w v h =
    let (same, stored, sent, equal) = check_token_sound request w v h in
    let (a, ea, na, ta) = missing_sound (cookie_value (w.cookies csrf_cookie)) stored in
    let (b, eb, nb, tb) = missing_sound (request.header csrf_header) sent in
    let agree = (timing_safe_equal_iff _ _).0 equal in
    (a, ea, eb ∙ ap some (sym tb ∙ (sym agree ∙ ta)), na)

module _ (host : Host) where
  has_host_sound :
      (origin name : Text)
      → has_host host origin name ≡ true
      → (url : Url) × (host.new_url origin ≡ some url) × (url.host ≡ name)
  unfolding has_host
  has_host_sound origin name h = elim (Option-cases (host.new_url origin)) [
    | inl e ↦ absurd (ground arith)
    | inr (url, e) ↦ (url, e, (text_eq_iff url.host name).0 (ground arith))
  ]

  host_matches_sound :
      (origin : Text) (request : Request) (o : Option Text)
      → request.header (lit "host") ≡ o
      → host_matches host origin o ≡ true
      → FromHost host origin request
  unfolding host_matches is_empty
  host_matches_sound origin request none e h = cc
  host_matches_sound origin request (some []) e h = absurd (ground arith)
  host_matches_sound origin request (some (x ∷ name)) e h =
      let (url, found, same) = has_host_sound origin (x ∷ name) (ground arith) in
      (x ∷ name, url, e, (λ p. cc), found, same)

  check_origin_sound :
      (request : Request) (w v : World) (c : Connection) (u : World)
      → connection host w ≡ ok c u
      → check_origin host request w ≡ ok tt v
      → (v ≡ u)
        × (is_missing (request.header (lit "origin")) ≡ false)
        × (origin_accepted host c (text_or_empty (request.header (lit "origin"))) request ≡ true)
  unfolding check_origin
  check_origin_sound request w v c u e h = ground arith

  -- What the origin of a request that passes is.
  abbrev pub HasOrigin : Connection → Request → Type 0
  HasOrigin c request =
      (origin : Text) × (request.header (lit "origin") ≡ some origin)
      × (origin ≢ [])
      × IsAllowed host c origin request

  IsAllowed-sound :
      (c : Connection) (origin : Text) (request : Request)
      → origin_accepted host c origin request ≡ true
      → IsAllowed host c origin request
  unfolding origin_accepted
  IsAllowed-sound c origin request h = elim (Bool-cases (text_eq origin c.app_origin)) [
    | inl e ↦ inl ((text_eq_iff _ _).0 e)
    | inr e ↦ inr (ground arith, host_matches_sound origin request _ refl (ground arith))
  ]

  pub origin_sound :
      (request : Request) (w v : World) (c : Connection) (u : World)
      → connection host w ≡ ok c u
      → check_origin host request w ≡ ok tt v
      → (v ≡ u) × HasOrigin c request
  origin_sound request w v c u e h =
      let (same, present, accepted) = check_origin_sound request w v c u e h in
      let (origin, announced, filled, reads) = missing_sound _ present in
      (same, (origin, announced, filled, rw reads at (IsAllowed-sound c _ request accepted)))
