-- ===== src/Screens/Shared.antt =====
-- What the forms have in common.
use warder.Base.{Option, some, [], Text, is_empty, if◌then◌else◌}
use warder.ClientApi.{ClientOptions}

-- A call of `apiFetch`.
pub record Call : Type 0 where
  pub path : Text
  pub options : ClientOptions

-- The expiry that is sent; `none` is an exception. `iso` is `new Date(…).toISOString()`.
unfoldable pub expiry_of : (Text → Option Text) → Text → Option Text
expiry_of iso expires_at = if is_empty expires_at then some [] else iso expires_at
