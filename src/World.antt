-- ===== src/World.antt =====
-- What the server side of the web application runs in: the platform (`Host`, everything that is not
-- code of the repository), the state that a request may change (`World`), and the monad of code that
-- changes it and may throw.
pub mod Leads
use warder.Base.{
  ℕ, ◌≡◌, refl, ◌⊎◌, inl, inr, Bool, true, false, Option, none, some, List, Text, Json,
}
use warder.Connection.{Url, Connection, Refusal}

-- One call of `fetch` to the core API. The headers that it may carry are its fields.
pub record CoreRequest : Type 0 where
  pub base_url : Text
  pub path : Text
  pub method : Text
  pub service_token : Text
  pub authorization : Option Text
  pub forwarded_for : Option Text
  pub content_type : Option Text
  pub body : Option Json

-- `failed` is a rejected `fetch`; the payload is `none` if the body is not JSON.
pub data Reply : Type 0 where
  failed : Reply
  answered : ℕ → Option Json → Reply

-- The request that a route receives. `header` takes lower-case names; `json` is `none` if the body
-- cannot be read as JSON; `query` is `searchParams.get` of its URL.
pub record Request : Type 0 where
  pub method : Text
  pub header : Text → Option Text
  pub json : Option Json
  pub query : Text → Option Text

-- A cookie with the attributes that the source sets. No `max_age` is a `maxAge` of `NaN`.
pub record Cookie : Type 0 where
  pub value : Text
  pub http_only : Bool
  pub secure : Bool
  pub same_site : Text
  pub path : Text
  pub max_age : Option ℕ

-- `WARDER_URL`, `WARDER_PUBLIC_RUNTIME_URL`, `new URL`, `headers()` of Next.js, `fetch` (the answer
-- may depend on all calls before), `Date.now()` and `new Date(v).getTime()` in milliseconds (`none`
-- is `NaN`), the text of a value in a template or a cookie, `crypto.getRandomValues`, and the text
-- of a `URLSearchParams`.
pub record Host : Type 0 where
  pub warder_url : Option Text
  pub runtime_url : Option Text
  pub new_url : Text → Option Url
  pub url_text : Url → Text
  pub incoming : Text → Option Text
  pub fetch : List CoreRequest → CoreRequest → Reply
  pub now : ℕ
  pub date : Option Json → Option ℕ
  pub text_of : Option Json → Text
  pub random_bytes : ℕ → List ℕ
  pub query_text : List (Text × Text) → Text

-- `cached` is the variable of env.ts, `calls` the calls of the core API made so far, newest last,
-- `draws` how often random bytes were drawn.
pub record World : Type 0 where
  pub cached : Option Connection
  pub cookies : Text → Option Cookie
  pub calls : List CoreRequest
  pub draws : ℕ

-- What the code throws: `CsrfError`, `NotAuthenticatedError`, any other `CoreApiError` (status,
-- code, message, details), `ConnectionError`, and any other exception.
pub data Failure : Type 0 where
  csrf : Text → Failure
  not_authenticated : Failure
  core : ℕ → Json → Json → Option Json → Failure
  misconfigured : Refusal → Failure
  unexpected : Failure

pub data Outcome {ℓ} (A : Type ℓ) : Type ℓ where
  ok : A → World → Outcome A
  err : Failure → World → Outcome A

abbrev pub M {ℓ} : Type ℓ → Type ℓ
M A = World → Outcome A

-- Go on with the value, or stop with the failure.
abbrev pub continue {ℓ κ} : {A : Type ℓ} {B : Type κ} → Outcome A → (A → M B) → Outcome B
continue (ok a w) f = f a w
continue (err e w) f = err e w

infixl 5 ◌>>=◌ ◌>>◌
abbrev pub ◌>>=◌ {ℓ κ} : {A : Type ℓ} {B : Type κ} → M A → (A → M B) → M B
◌>>=◌ m f w = continue (m w) f

abbrev pub ◌>>◌ {ℓ} : {B : Type ℓ} → M (Unit {0}) → M B → M B
m >> k = m >>= λ _. k

abbrev pub pure {ℓ} : {A : Type ℓ} → A → M A
pure a w = ok a w

abbrev pub throw {ℓ} : {A : Type ℓ} → Failure → M A
throw e w = err e w

-- `if (test) throw e`
abbrev pub throw_if : Bool → Failure → M (Unit {0})
throw_if true e w = err e w
throw_if false e w = ok tt w

abbrev pub final {ℓ} : {A : Type ℓ} → Outcome A → World
final (ok a w) = w
final (err e w) = w

pub ok-injective {ℓ} :
    {A : Type ℓ} {a b : A} {v w : World} → ◌≡◌ {A = Outcome A} (ok a v) (ok b w) → (a ≡ b) × (v ≡ w)
ok-injective h = (cc, cc)

pub Outcome-cases {ℓ} :
    {A : Type ℓ} (o : Outcome A)
    → ((a : A) × (w : World) × (o ≡ ok a w)) ⊎ ((e : Failure) × (w : World) × (o ≡ err e w))
Outcome-cases (ok a w) = inl (a, w, refl)
Outcome-cases (err e w) = inr (e, w, refl)

-- A run that returns has a first part that returns.
pub continue-eq-ok {ℓ κ} :
    {A : Type ℓ} {B : Type κ} (o : Outcome A) (f : A → M B) {b : B} {w' : World}
    → continue o f ≡ ok b w'
    → (a : A) × (v : World) × (o ≡ ok a v) × (f a v ≡ ok b w')
continue-eq-ok (ok a v) f h = (a, v, refl, h)
continue-eq-ok (err e v) f h = cc

-- What holds of the failure, if a run fails.
abbrev pub Fails {ℓ} : {A : Type ℓ} → (Failure → Type 0) → Outcome A → Type 0
Fails P (ok a w) = Unit
Fails P (err e w) = P e
