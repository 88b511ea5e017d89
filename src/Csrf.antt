-- ===== src/Csrf.antt =====
-- web/lib/csrf.ts: the checks of a request that may change state.
pub mod Timing
pub mod Laws
pub mod Effects
pub mod Passes
pub mod Complete
use Prim.Native.Nat.{bit_or, bit_xor}
use warder.Base.{
  ℕ, ◌≡◌, Bool, true, false, ◌&&◌, ◌||◌, not, Option, none, some, List, [], ◌∷◌, Text, lit, text_eq,
  one_of, is_empty, to_upper, length, ◌==◌, if◌then◌else◌,
}
use warder.Connection.{Url, Connection}
use warder.Env.{connection}
use warder.Session.{csrf_header, get_csrf_token}
use warder.World.{
  Host, World, Request, Outcome, ok, err, M, ◌>>=◌, ◌>>◌, pure, throw, throw_if, Failure, csrf,
}

unfoldable pub is_safe_method : Request → Bool
unfolding one_of to_upper
is_safe_method request =
    one_of (lit "GET" ∷ lit "HEAD" ∷ lit "OPTIONS" ∷ []) (to_upper request.method)

-- The loop of `timingSafeEqual`, over texts of one length.
unfoldable pub difference : ℕ → Text → Text → ℕ
difference acc [] b = acc
difference acc (x ∷ a) [] = acc
difference acc (x ∷ a) (y ∷ b) = difference (bit_or acc (bit_xor x y)) a b

unfoldable pub timing_safe_equal : Text → Text → Bool
unfolding difference
timing_safe_equal a b = if length a == length b then difference 0 a b == 0 else false

-- Whether `!value` of a header or a cookie that is text or missing.
unfoldable pub is_missing : Option Text → Bool
is_missing none = true
is_missing (some s) = is_empty s

unfoldable pub text_or_empty : Option Text → Text
text_or_empty none = []
text_or_empty (some s) = s

-- The double-submit check, of the cookie's token against the header's.
unfoldable pub check_token_of : Option Text → Request → M (Unit {0})
unfolding timing_safe_equal is_missing text_or_empty
check_token_of expected request = do
  let presented = request.header csrf_header
  throw_if (is_missing expected || is_missing presented)
      (csrf (lit "This request is missing its security token."))
  throw_if (not (timing_safe_equal (text_or_empty expected) (text_or_empty presented)))
      (csrf (lit "This request carried an invalid security token."))

unfoldable pub check_token : Request → M (Unit {0})
unfolding check_token_of
check_token request = do expected ← get_csrf_token; check_token_of expected request

module _ (host : Host) where
  unfoldable pub has_host : Text → Text → Bool
  has_host origin name = elim (host.new_url origin) [
    | none ↦ false
    | some url ↦ text_eq url.host name
  ]

  unfoldable pub host_matches : Text → Option Text → Bool
  unfolding has_host
  host_matches origin none = false
  host_matches origin (some name) = if is_empty name then false else has_host origin name

  unfoldable pub origin_accepted : Connection → Text → Request → Bool
  unfolding host_matches
  origin_accepted c origin request =
      if text_eq origin c.app_origin
      then true
      else if c.is_production
      then false
      else host_matches origin (request.header (lit "host"))

  unfoldable pub origin_matches : Text → Request → M Bool
  unfolding origin_accepted
  origin_matches origin request = do c ← connection host; pure (origin_accepted c origin request)

  -- The checks behind the early return for a safe method.
  unfoldable pub check_origin : Request → M (Unit {0})
  unfolding origin_matches is_missing text_or_empty
  check_origin request = do
    let origin = request.header (lit "origin")
    throw_if (is_missing origin) (csrf (lit "This request is missing its origin."))
    matches ← origin_matches (text_or_empty origin) request
    throw_if (not matches) (csrf (lit "This request came from an unexpected origin."))

  unfoldable pub assert_same_origin : Request → M (Unit {0})
  unfolding check_origin
  assert_same_origin request = if is_safe_method request then pure tt else check_origin request

  unfoldable pub assert_csrf : Request → M (Unit {0})
  unfolding assert_same_origin check_token
  assert_csrf request =
      if is_safe_method request then pure tt else do assert_same_origin request; check_token request
