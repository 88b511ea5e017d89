-- ===== src/RouteHelpers/Guard.antt =====
-- What the wrappers of the routes guarantee for every handler.
use warder.Base.{◌≡◌, ◌⊎◌, inl, inr, refl, false}
use warder.Connection.{Connection}
use warder.Csrf.{is_safe_method, assert_csrf}
use warder.Csrf.Effects.{IsRefusal, assert_csrf-IsCheck}
use warder.Csrf.Passes.{IsPassed, assert_csrf_sound}
use warder.Env.{connection}
use warder.Env.Laws.{SameEffects}
use warder.RouteHelpers.{Response, Handler, error_response, respond, handle_route}
use warder.World.{
  Host, World, Request, Outcome, ok, err, Failure, csrf, not_authenticated, core, misconfigured,
  unexpected, Outcome-cases, continue,
}

-- The handler did not run: the response says that the check failed, or that nothing is configured,
-- and no cookie, no call and no random draw came of the request.
pub record IsRefused (w : World) (r : Response × World) : Type 0 where
  pub status : (r.0.status ≡ 403) ⊎ (r.0.status ≡ 500)
  pub effects : SameEffects w r.1

-- The handler ran, for a request that passed, from a state that differs in nothing but the cache.
pub record IsHandled (host : Host) (request : Request) (handler : Handler) (w : World)
    (r : Response × World) : Type 0 where
  pub settled : World
  pub judge : Connection
  pub connected : connection host w ≡ ok judge settled
  pub passed : IsPassed host judge w request
  pub effects : SameEffects w settled
  pub answered : r ≡ respond (handler settled)

refusal-status :
    (f : Failure)
    → IsRefusal f
    → ((error_response f).status ≡ 403) ⊎ ((error_response f).status ≡ 500)
unfolding error_response
refusal-status (csrf message) h = inl refl
refusal-status (misconfigured r) h = inr refl
refusal-status not_authenticated h = absurd h
refusal-status (core status code message details) h = absurd h
refusal-status unexpected h = absurd h

module _ (host : Host) (request : Request) (handler : Handler) (w : World) where
  handled_if :
      (o : Outcome (Unit {0}))
      → assert_csrf host request w ≡ o
      → handle_route host request handler w ≡ respond (continue o (λ _. handler))
  unfolding handle_route
  handled_if o e = rw e

  refused :
      (f : Failure) (v : World)
      → assert_csrf host request w ≡ err f v
      → IsRefused w (handle_route host request handler w)
  refused f v e =
      let check = assert_csrf-IsCheck host request in
      rw (handled_if (err f v) e) (record {
        status = unfold respond in refusal-status f (rw e at (check.fails w));
        effects = unfold respond in rw e at (check.moves w);
      })

  passed :
      (v : World)
      → is_safe_method request ≡ false
      → assert_csrf host request w ≡ ok tt v
      → IsHandled host request handler w (handle_route host request handler w)
  passed v unsafe e =
      let (c, connected, p) = assert_csrf_sound host request unsafe w v e in
      record {
        settled = v;
        judge = c;
        connected = connected;
        passed = p;
        effects = rw e at ((assert_csrf-IsCheck host request).moves w);
        answered = handled_if (ok tt v) e;
      }

  -- Whatever its handler does, a route behind `handleRoute` answers a request whose method may change
  -- state in one of two ways: it refuses with 403 or 500 and no cookie, call of the core API or random
  -- draw comes of it; or the request carries an accepted origin and the token of its cookie, and the
  -- response is that of the handler, run from a state with the same cookies, calls and draws.
  pub handle_route_guard :
      is_safe_method request ≡ false
      → IsRefused w (handle_route host request handler w)
        ⊎ IsHandled host request handler w (handle_route host request handler w)
  handle_route_guard unsafe = elim (Outcome-cases (assert_csrf host request w)) [
    | inl (x, v, e) ↦ inr (passed v unsafe e)
    | inr (f, v, e) ↦ inl (refused f v e)
  ]
