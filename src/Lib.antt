-- ===== src/Lib.antt =====
-- Warder, the server side of its web application: the Backend-for-Frontend that stands between the
-- browser and the core API, with the browser code that talks to it.
--
-- A request to a route under web/app/api runs in `handleRoute` or `handlePreAuthRoute`. The first checks
-- the origin and the double-submit token (web/lib/csrf.ts), with the connection that `WARDER_URL` parses
-- to (web/lib/connection.ts, web/lib/env.ts) and the cookies (web/lib/session.ts). The handler reads
-- the body, calls the core API (web/lib/core-api.ts), and its result or failure becomes the response.
--
-- The files and what they model:
--   Base         text as UTF-16 units, JSON, and the string functions of the language that the
--                source calls (`trim`, `decodeURIComponent`, the bitwise operators)
--   Connection   web/lib/connection.ts, the parser of the connection URI
--   World        the platform and the state a request changes; the monad of the server's code
--   Env          web/lib/env.ts, the cached connection and what is derived from it
--   Session      web/lib/session.ts, the two cookies
--   Csrf         web/lib/csrf.ts, the checks of a request
--   CoreApi      web/lib/core-api.ts, the call of the core API
--   RouteHelpers web/lib/route-helpers.ts, the wrappers and the readers of a body
--   Uuid         `UUID_PATTERN` and `requireId` of web/lib/route-helpers.ts
--   Routes       the handlers of web/app/api, one function for each, and the discovery document of
--                web/app/.well-known/warder
--   Server       one request after another, each to the handler of its route
--   Dotenv       web/lib/dotenv.ts, the parser of a pasted `.env` file
--   WebAuthn     `toBase64Url` and `fromBase64Url` of web/lib/webauthn.ts
--   Middleware   web/middleware.ts, the headers of a page and the nonce of its policy
--   ClientApi    web/lib/client-api.ts, the browser's side of a call
--   Screens      the state of the browser's forms and lists, of web/components:
--     AddSecrets   add-secrets-dialog.tsx, the rows, the paste and the submission
--     SecretsTable secrets-table.tsx, the filter, the selection and a revealed value
--     Access       access-grid.tsx and access-matrix.tsx, who reaches what
--     KeyPicker    secret-key-picker.tsx, the secrets that a token is narrowed to
--     Login        login-form.tsx, sign-in with its second step
--     GrantAccess  grant-access-dialog.tsx, what a grant must say to be sent
--     CreateToken  create-token-dialog.tsx, a token that is shown once
--     SignUp       signup-form.tsx, a new organization and its recovery codes
--     Recovery     forgot-password-form.tsx and redeem-recovery-form.tsx, a new password
--     RotateSecret rotate-secret-dialog.tsx and change-expiry-dialog.tsx
--     AuditTable   audit-table.tsx, the events with their filters
--     AcceptInvitation  accept-invitation-form.tsx, the page behind an invitation link
--   Docs         web/lib/docs.ts, the published documents with their headings
--   Tests        a concrete server and request, on which each theorem with hypotheses is applied
--
-- State is passed explicitly: a `World` holds the cached connection, the cookies, the calls of the
-- core API so far, and how often random bytes were drawn. An `await` is the sequence of a `do` block,
-- an exception an `err` with the state at which it was thrown. The core API (a Go program), `fetch`,
-- `new URL`, the clock and random bytes are fields of `Host`, with no assumption on them unless a
-- theorem names one. Numbers are natural numbers; `trim`, `split` and the patterns of the source are
-- written out. Requests are served one after the other; that two may interleave at an `await` is left
-- out. A component of the browser is a record of its `useState` values with one function for each
-- handler and each answer that arrives; a theorem on it is about any sequence of these, so answers may
-- arrive in any order. All recursion is on the text or the list that is read, so no fuel is needed.
--
-- `toLowerCase` and `toUpperCase` are those of ASCII, `\p{L}` and `\p{N}` a parameter, the message of a
-- time that cannot be written that of V8, and `document.cookie` the list of pairs it is documented to be.
--
-- Not modelled: the Go program (cmd, internal), which is behind `fetch`; the markup of the pages; the
-- animated and basic parts that are copied from other libraries (web/components/motion,
-- web/components/ui, web/lib/hooks); the dialogs of web/components on members, identities, projects and
-- passkeys, which repeat the shape of those above; the log lines of a failed call and of an unexpected
-- exception; the Accept and User-Agent headers, which are constant.
pub mod Base
pub mod Connection
pub mod World
pub mod Env
pub mod Session
pub mod Csrf
pub mod CoreApi
pub mod RouteHelpers
pub mod Uuid
pub mod Routes
pub mod Server
pub mod Dotenv
pub mod WebAuthn
pub mod Middleware
pub mod ClientApi
pub mod Screens
pub mod Docs
pub mod Tests
