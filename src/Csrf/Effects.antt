-- ===== src/Csrf/Effects.antt =====
-- A request that is refused changes nothing, and how it is refused.
use warder.Base.{Bool, Option, none, some, Text}
use warder.Connection.{Connection, Parsed, parsed, refused, parse_connection}
use warder.Csrf.{check_origin, assert_same_origin, check_token, check_token_of, assert_csrf}
use warder.Env.{connection, use_cached, store_parsed}
use warder.Env.Laws.{SameEffects, SameEffects-refl, SameEffects-preorder, connection-SameEffects}
use warder.Session.{get_csrf_token}
use warder.World.{
  Host, World, Request, M, Failure, csrf, misconfigured, not_authenticated, core, unexpected, Fails,
  ◌>>=◌, pure, throw_if,
}
use warder.World.Leads.{Leads, >>=-Leads, pure-Leads, throw_if-Leads, if-Leads}

-- The two ways in which the checks refuse: a `CsrfError`, or a connection that does not parse.
abbrev pub IsRefusal : Failure → Type 0
IsRefusal (csrf message) = Unit
IsRefusal (misconfigured r) = Unit
IsRefusal not_authenticated = ⊥
IsRefusal (core status code message details) = ⊥
IsRefusal unexpected = ⊥

-- It changes nothing that a request could see, and fails in those ways only.
abbrev pub IsCheck {ℓ} : {A : Type ℓ} → M A → Type 0
IsCheck m = Leads SameEffects IsRefusal m

>>=-IsCheck :
    {A B : Type 0} {m : M A} {f : A → M B}
    → IsCheck m
    → ((a : A) → IsCheck (f a))
    → IsCheck (m >>= f)
>>=-IsCheck h k = >>=-Leads SameEffects-preorder h k

pure-IsCheck : {A : Type 0} (a : A) → IsCheck (pure a)
pure-IsCheck a = pure-Leads SameEffects-preorder a

csrf_if-IsCheck : (b : Bool) (message : Text) → IsCheck (throw_if b (csrf message))
csrf_if-IsCheck b message = throw_if-Leads SameEffects-preorder b (csrf message) tt

ruleset checks = (>>=-IsCheck, pure-IsCheck, csrf_if-IsCheck)

get_csrf_token-IsCheck : IsCheck get_csrf_token
unfolding get_csrf_token
get_csrf_token-IsCheck = record { moves = SameEffects-refl; fails = λ w. tt }

check_token_of-IsCheck :
    (expected : Option Text) (request : Request) → IsCheck (check_token_of expected request)
unfolding check_token_of
check_token_of-IsCheck expected request = search checks

check_token-IsCheck : (request : Request) → IsCheck (check_token request)
unfolding check_token
check_token-IsCheck request =
    >>=-Leads SameEffects-preorder get_csrf_token-IsCheck
      λ expected. check_token_of-IsCheck expected request

module _ (host : Host) where
  store-Fails : (w : World) (p : Parsed Connection) → Fails IsRefusal (store_parsed host w p)
  unfolding store_parsed
  store-Fails w (parsed c) = tt
  store-Fails w (refused r) = tt

  used-Fails : (w : World) (o : Option Connection) → Fails IsRefusal (use_cached host w o)
  unfolding use_cached
  used-Fails w (some c) = tt
  used-Fails w none = store-Fails w (parse_connection host.new_url host.warder_url)

  connection-Fails : (w : World) → Fails IsRefusal (connection host w)
  unfolding connection
  connection-Fails w = used-Fails w w.cached

  pub connection-IsCheck : IsCheck (connection host)
  connection-IsCheck = record { moves = connection-SameEffects host; fails = connection-Fails }

  check_origin-IsCheck : (request : Request) → IsCheck (check_origin host request)
  unfolding check_origin
  check_origin-IsCheck request = search (checks, connection-IsCheck)

  pub assert_same_origin-IsCheck : (request : Request) → IsCheck (assert_same_origin host request)
  unfolding assert_same_origin
  assert_same_origin-IsCheck request =
      if-Leads SameEffects-preorder _ (pure-Leads SameEffects-preorder tt)
        (check_origin-IsCheck request)

  pub assert_csrf-IsCheck : (request : Request) → IsCheck (assert_csrf host request)
  unfolding assert_csrf
  assert_csrf-IsCheck request =
      if-Leads SameEffects-preorder _ (pure-Leads SameEffects-preorder tt) (
        >>=-Leads SameEffects-preorder (assert_same_origin-IsCheck request)
          λ _. check_token-IsCheck request)
