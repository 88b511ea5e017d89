-- ===== src/Routes/Safe.antt =====
-- Reading a field of an answer makes no call.
use warder.Base.{Option, none, some, Text, Json, null, bool, num, str, arr, obj}
use warder.CoreApi.Calls.{IsSafe}
use warder.RouteHelpers.Safe.{kept}
use warder.Routes.Shared.{read_prop}
use warder.World.{Host}

module _ (host : Host) where
  pub read_prop-IsSafe : (k : Text) (v : Option Json) → IsSafe host (read_prop k v)
  unfolding read_prop
  read_prop-IsSafe k none = search kept
  read_prop-IsSafe k (some null) = search kept
  read_prop-IsSafe k (some (bool b)) = search kept
  read_prop-IsSafe k (some (num n)) = search kept
  read_prop-IsSafe k (some (str s)) = search kept
  read_prop-IsSafe k (some (arr vs)) = search kept
  read_prop-IsSafe k (some (obj fs)) = search kept
