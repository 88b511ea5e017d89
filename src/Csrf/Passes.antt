-- ===== src/Csrf/Passes.antt =====
-- The requests that pass both checks, exactly.
use warder.Base.{◌≡◌, inl, inr, sym, ◌∙◌, ap, subst, arith, false}
use warder.Connection.{Connection}
use warder.Csrf.{is_safe_method, check_origin, check_token, assert_csrf}
use warder.Csrf.Laws.{HasToken, HasOrigin, check_token_sound, token_sound, origin_sound}
use warder.Env.{connection}
use warder.Env.Laws.{connection-SameEffects}
use warder.World.{Host, World, Request, ok, err, Failure, Outcome-cases, continue, continue-eq-ok}

-- Under the connection `c`, the request announces an origin that is accepted, and echoes the token of
-- its cookie.
pub record IsPassed (host : Host) (c : Connection) (w : World) (request : Request) : Type 0 where
  pub origin : HasOrigin host c request
  pub token : HasToken w.cookies request

module _ (host : Host) where
  check_origin-err :
      (request : Request) (w v : World) (f : Failure) (u : World)
      → connection host w ≡ err f u
      → check_origin host request w ≡ ok tt v
      → ⊥
  unfolding check_origin
  check_origin-err request w v f u e h = ground arith

  -- A request that passes was judged by a connection.
  check_origin-connected :
      (request : Request) (w v : World)
      → check_origin host request w ≡ ok tt v
      → (c : Connection) × (u : World) × (connection host w ≡ ok c u)
  check_origin-connected request w v h = elim (Outcome-cases (connection host w)) [
    | inl (c, u, e) ↦ (c, u, e)
    | inr (f, u, e) ↦ absurd (check_origin-err request w v f u e h)
  ]

  check_origin_passed :
      (request : Request) (w v : World)
      → check_origin host request w ≡ ok tt v
      → (c : Connection) × (connection host w ≡ ok c v) × HasOrigin host c request
  check_origin_passed request w v h =
      let (c, u, e) = check_origin-connected request w v h in
      let (same, origin) = origin_sound host request w v c u e h in
      (c, e ∙ ap (ok c) (sym same), origin)

  pub connection-cookies :
      (w v : World) (c : Connection) → connection host w ≡ ok c v → v.cookies ≡ w.cookies
  connection-cookies w v c e = rw e at ((connection-SameEffects host w).cookies)

  module _ (request : Request) (unsafe : is_safe_method request ≡ false) where
    pub assert_csrf_unsafe :
        (w : World)
        → assert_csrf host request w
          ≡ continue (check_origin host request w) (λ _. check_token request)
    unfolding assert_csrf
    assert_csrf_unsafe w = rw unsafe

    pub assert_csrf_sound :
        (w v : World)
        → assert_csrf host request w ≡ ok tt v
        → (c : Connection) × (connection host w ≡ ok c v) × IsPassed host c w request
    assert_csrf_sound w v h =
        let (x, u, first, second) =
          continue-eq-ok (check_origin host request w) (λ _. check_token request)
            (sym (assert_csrf_unsafe w) ∙ h) in
        let (c, connected, origin) = check_origin_passed request w u first in
        let same = (check_token_sound request u v second).0 in
        let token = token_sound request u v second in
        (
          c,
          connected ∙ ap (ok c) (sym same),
          record {
            origin = origin;
            token = subst (λ jar. HasToken jar request) (connection-cookies w u c connected) token;
          },
        )
