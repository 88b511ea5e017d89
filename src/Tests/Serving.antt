-- ===== src/Tests/Serving.antt =====
-- The server signs in and out, pages get their headers, and a version is chosen.
use warder.Base.{
  ◌≡◌, refl, ℕ, arith, Bool, true, false, Option, none, some, List, [], ◌∷◌, Text, lit, All, Json,
  null, num, str, object, array_of, arr, prop?,
}
use warder.CoreApi.Calls.{IsSound}
use warder.Dotenv.{ParsedEntry, parse_dotenv}
use warder.Dotenv.Keys.{IsName, parse_dotenv-AllNamed}
use warder.Middleware.{PageRequest, middleware}
use warder.Middleware.Policy.{IsGuarded, middleware-IsGuarded, middleware-injective}
use warder.Routes.Account.{logout}
use warder.Routes.Account.SignOut.{IsSignedOut, logout-IsSignedOut}
use warder.Routes.Secrets.{current_version}
use warder.Routes.Secrets.Current.{IsCurrent, listed, current_version-IsCurrent}
use warder.Server.{Arrival, to_logout, to_projects, to_session, run}
use warder.Server.Safe.{run-IsSound}
use warder.Tests.{server, start, warm, post, jar, no_text}
use warder.Tests.Guarding.{assert_csrf-test}
use warder.WebAuthn.RoundTrip.{IsBytes}
use warder.World.{ok}

abbrev arrivals : List Arrival
arrivals =
    record { route = to_projects; request = post; cookies = jar }
    ∷ record { route = to_logout; request = post; cookies = jar }
    ∷ record { route = to_session; request = post; cookies = jar }
    ∷ []

run-IsSound_example : IsSound server (run server arrivals start)
run-IsSound_example = run-IsSound server arrivals start refl refl

logout-IsSignedOut_example : IsSignedOut (logout server post start)
logout-IsSignedOut_example = logout-IsSignedOut server post start warm assert_csrf-test

abbrev page : PageRequest
page = record { headers = no_text; protocol = lit "https:"; pathname = lit "/projects" }

middleware-IsGuarded_example :
    IsGuarded false (1 ∷ 2 ∷ []) page (middleware false no_text (1 ∷ 2 ∷ []) page)
middleware-IsGuarded_example = middleware-IsGuarded false no_text (1 ∷ 2 ∷ []) page

abbrev bytes : List ℕ
bytes = 1 ∷ 255 ∷ []

bytes-IsBytes : IsBytes bytes
bytes-IsBytes = (omega arith, (omega arith, tt))

middleware-injective_example : bytes ≡ bytes
middleware-injective_example =
    middleware-injective false no_text no_text bytes bytes page page bytes-IsBytes bytes-IsBytes
      refl

abbrev version : ℕ → Text → Json
version n status = object ((lit "version", some (num n)) ∷ (lit "status", some (str status)) ∷ [])

abbrev answer_body : Option Json
answer_body = some (
    object (
      (
        lit "versions",
        some (
            arr (
              array_of (
                version 3 (lit "EXPIRED")
                ∷ version 1 (lit "ACTIVE")
                ∷ version 2 (lit "ACTIVE")
                ∷ []))),
      )
      ∷ []))

chosen_version : current_version answer_body start ≡ ok (version 2 (lit "ACTIVE")) start
unfolding current_version prop? lit warder.Base.items array_of warder.Base.is_str warder.Base.truthy
    warder.Routes.Secrets.version_number
chosen_version = refl

current_version-IsCurrent_example :
    IsCurrent (listed (prop? (lit "versions") answer_body)) (version 2 (lit "ACTIVE"))
current_version-IsCurrent_example =
    current_version-IsCurrent answer_body (version 2 (lit "ACTIVE")) start start chosen_version

abbrev pasted : Text
pasted = lit "export A='x\ny' # no\n\nB=1 # one\n2=3\n"

parse_dotenv-AllNamed_example :
    All (λ (e : ParsedEntry). IsName e.key) (parse_dotenv pasted).entries
parse_dotenv-AllNamed_example = parse_dotenv-AllNamed pasted
