-- ===== src/CoreApi/Calls.antt =====
-- Where the calls of the core API go, and what carries that through the server's code.
use warder.Base.{
  ◌≡◌, refl, sym, inl, inr, Bool, true, Bool-cases, Option, none, some, Text, All, All-concat, Json,
  if◌then◌else◌,
}
use warder.Connection.{Connection, Parsed, parsed, refused, parse_connection}
use warder.CoreApi.{
  CallOptions, is_relative, token_of, authorization_of, read_reply, send, request_of, call_core_api,
}
use warder.Env.{connection, use_cached, store_parsed}
use warder.Env.Laws.{IsFresh, connection-eq-ok}
use warder.Session.{get_session_token}
use warder.World.{
  Host, World, CoreRequest, Reply, failed, answered, Outcome, ok, err, M, Failure, continue, ◌>>=◌,
  pure, throw, throw_if, final, Fails,
}
use warder.World.Leads.{
  Preorder, Leads, >>=-Leads, pure-Leads, throw-Leads, throw_if-Leads, if-Leads,
}

-- A call to the address that the connection URI names, with its credential, of a path below it.
pub record IsOwnCall (host : Host) (r : CoreRequest) : Type 0 where
  pub configured : Connection
  pub parses : parse_connection host.new_url host.warder_url ≡ parsed configured
  pub address : r.base_url ≡ configured.core_api_url
  pub credential : r.service_token ≡ configured.service_token
  pub below : is_relative r.path ≡ true

-- The connection that is kept is that of the URI, and so was that of every call.
pub record IsSound (host : Host) (w : World) : Type 0 where
  pub fresh : IsFresh host w.cached
  pub own : All (IsOwnCall host) w.calls

abbrev pub Any : Failure → Type 0
Any e = Unit

module _ (host : Host) where
  abbrev pub Preserves : World → World → Type 0
  Preserves w w' = IsSound host w → IsSound host w'

  pub Preserves-preorder : Preorder Preserves
  Preserves-preorder = record { reflexive = λ w s. s; transitive = λ u v w f g s. g (f s) }

  -- Every run of it, whether it returns or throws, keeps a sound state sound.
  abbrev pub IsSafe {ℓ} : {A : Type ℓ} → M A → Type 0
  IsSafe m = Leads Preserves Any m

  Any-Fails {ℓ} : {A : Type ℓ} (o : Outcome A) → Fails Any o
  Any-Fails (ok a w) = tt
  Any-Fails (err e w) = tt

  pub Preserves-IsSafe {ℓ} :
      {A : Type ℓ} (m : M A) → ((w : World) → Preserves w (final (m w))) → IsSafe m
  Preserves-IsSafe m h = record { moves = h; fails = λ w. Any-Fails (m w) }

  store-Preserves :
      (w : World) (p : Parsed Connection)
      → p ≡ parse_connection host.new_url host.warder_url
      → Preserves w (final (store_parsed host w p))
  unfolding store_parsed
  store-Preserves w (parsed c) e s = record { fresh = sym e; own = s.own }
  store-Preserves w (refused r) e s = s

  used-Preserves : (w : World) (o : Option Connection) → Preserves w (final (use_cached host w o))
  unfolding use_cached
  used-Preserves w (some c) s = s
  used-Preserves w none s = store-Preserves w _ refl s

  pub connection-IsSafe : IsSafe (connection host)
  unfolding connection
  connection-IsSafe = Preserves-IsSafe (connection host) λ w. used-Preserves w w.cached

  pub >>=-IsSafe {ℓ κ} :
      {A : Type ℓ} {B : Type κ} {m : M A} {f : A → M B}
      → IsSafe m
      → ((a : A) → IsSafe (f a))
      → IsSafe (m >>= f)
  >>=-IsSafe h k = >>=-Leads Preserves-preorder h k

  pub pure-IsSafe {ℓ} : {A : Type ℓ} (a : A) → IsSafe (pure a)
  pure-IsSafe a = pure-Leads Preserves-preorder a

  pub throw-IsSafe {ℓ} : {A : Type ℓ} (e : Failure) → IsSafe (throw {A = A} e)
  throw-IsSafe e = throw-Leads Preserves-preorder e tt

  pub throw_if-IsSafe : (b : Bool) (e : Failure) → IsSafe (throw_if b e)
  throw_if-IsSafe b e = throw_if-Leads Preserves-preorder b e tt

  pub if-IsSafe {ℓ} :
      {A : Type ℓ} {m n : M A} (b : Bool) → IsSafe m → IsSafe n → IsSafe (if b then m else n)
  if-IsSafe b h k = if-Leads Preserves-preorder b h k

  pub ruleset safe =
      (>>=-IsSafe, pure-IsSafe, throw-IsSafe, throw_if-IsSafe, if-IsSafe, connection-IsSafe)

  get_session_token-IsSafe : IsSafe get_session_token
  unfolding get_session_token
  get_session_token-IsSafe = Preserves-IsSafe get_session_token λ w s. s

  token_of_option-IsSafe :
      (o : CallOptions) (t : Option Text) → o.session_token ≡ t → IsSafe (token_of o)
  unfolding token_of
  token_of_option-IsSafe o (some t) e = rw e (pure-IsSafe (some t))
  token_of_option-IsSafe o none e = rw e get_session_token-IsSafe

  token_of-IsSafe : (o : CallOptions) → IsSafe (token_of o)
  token_of-IsSafe o = token_of_option-IsSafe o o.session_token refl

  authorization_of-IsSafe : (o : CallOptions) → IsSafe (authorization_of o)
  unfolding authorization_of
  authorization_of-IsSafe o = search (safe, token_of-IsSafe)

  read_reply-IsSafe : (anonymous : Bool) (r : Reply) → IsSafe (read_reply anonymous r)
  unfolding read_reply
  read_reply-IsSafe anonymous failed = search safe
  read_reply-IsSafe anonymous (answered status payload) = search safe

  send-IsSafe : (r : CoreRequest) → IsOwnCall host r → IsSafe (send host r)
  unfolding send
  send-IsSafe r own =
      Preserves-IsSafe (send host r)
        λ w s. record { fresh = s.fresh; own = All-concat (IsOwnCall host) w.calls r s.own own }

  module _ (path : Text) (options : CallOptions) where
    -- What a call does with its connection.
    called : Connection → M (Option Json)
    called c = do
      authorization ← authorization_of options
      reply ← send host (request_of host c path options authorization)
      read_reply options.anonymous reply

    request-IsOwnCall :
        (c : Connection) (a : Option Text)
        → parse_connection host.new_url host.warder_url ≡ parsed c
        → is_relative path ≡ true
        → IsOwnCall host (request_of host c path options a)
    unfolding request_of
    request-IsOwnCall c a e below = record {
      configured = c;
      parses = e;
      address = refl;
      credential = refl;
      below = below;
    }

    called-IsSafe :
        (c : Connection)
        → parse_connection host.new_url host.warder_url ≡ parsed c
        → is_relative path ≡ true
        → IsSafe (called c)
    unfolding called
    called-IsSafe c e below = >>=-IsSafe (authorization_of-IsSafe options) λ a.
        >>=-IsSafe (send-IsSafe _ (request-IsOwnCall c a e below))
          λ r. read_reply-IsSafe options.anonymous r

    connected-Preserves :
        (w : World) (o : Outcome Connection)
        → connection host w ≡ o
        → is_relative path ≡ true
        → Preserves w (final (continue o called))
    connected-Preserves w (err f v) e below s = rw e at ((connection-IsSafe).moves w s)
    connected-Preserves w (ok c v) e below s =
        let (parses, kept) = connection-eq-ok host w c v s.fresh e in
        (called-IsSafe c parses below).moves v (rw e at ((connection-IsSafe).moves w s))

    pub call_core_api-IsSafe : IsSafe (call_core_api host path options)
    unfolding call_core_api called
    call_core_api-IsSafe = Preserves-IsSafe (call_core_api host path options) λ w s.
        elim (Bool-cases (is_relative path)) [
          | inl below ↦ rw below (connected-Preserves w (connection host w) refl below s)
          | inr above ↦ rw above s
        ]
