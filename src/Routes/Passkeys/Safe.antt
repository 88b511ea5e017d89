-- ===== src/Routes/Passkeys/Safe.antt =====
-- The routes for passkeys, passwords and recovery codes keep the calls of the core API to the server's own.
use warder.Base.{Option, Text, Json}
use warder.CoreApi.Calls.{Preserves, IsSafe}
use warder.RouteHelpers.Safe.{kept}
use warder.Routes.Safe.{read_prop-IsSafe}
use warder.Routes.Account.Safe.{begin_session-IsSafe}
use warder.Routes.Passkeys.{
  complete, passkeys, delete_passkey, register_begin, register_finish, signin_begin, signin_finish,
  assert_begin, assert_finish, assert_recovery, change_password, recover_password, reset_password,
  recovery_codes_left, mint_recovery_codes,
}
use warder.World.{Host, World, Request}

module _ (host : Host) where
  complete-IsSafe : (v : Option Json) → IsSafe host (complete host v)
  unfolding complete
  complete-IsSafe v = search (kept, read_prop-IsSafe, begin_session-IsSafe)

  pub passkeys-Preserves :
      (request : Request) (w : World) → Preserves host w (passkeys host request w).1
  unfolding passkeys
  passkeys-Preserves request w = search kept

  pub delete_passkey-Preserves :
      (id : Text) (request : Request) (w : World)
      → Preserves host w (delete_passkey host id request w).1
  unfolding delete_passkey
  delete_passkey-Preserves id request w = search kept

  pub register_begin-Preserves :
      (request : Request) (w : World) → Preserves host w (register_begin host request w).1
  unfolding register_begin
  register_begin-Preserves request w = search kept

  pub register_finish-Preserves :
      (request : Request) (w : World) → Preserves host w (register_finish host request w).1
  unfolding register_finish
  register_finish-Preserves request w = search kept

  pub signin_begin-Preserves :
      (request : Request) (w : World) → Preserves host w (signin_begin host request w).1
  unfolding signin_begin
  signin_begin-Preserves request w = search kept

  pub signin_finish-Preserves :
      (request : Request) (w : World) → Preserves host w (signin_finish host request w).1
  unfolding signin_finish
  signin_finish-Preserves request w = search (kept, complete-IsSafe)

  pub assert_begin-Preserves :
      (request : Request) (w : World) → Preserves host w (assert_begin host request w).1
  unfolding assert_begin
  assert_begin-Preserves request w = search kept

  pub assert_finish-Preserves :
      (request : Request) (w : World) → Preserves host w (assert_finish host request w).1
  unfolding assert_finish
  assert_finish-Preserves request w = search (kept, complete-IsSafe)

  pub assert_recovery-Preserves :
      (request : Request) (w : World) → Preserves host w (assert_recovery host request w).1
  unfolding assert_recovery
  assert_recovery-Preserves request w = search (kept, complete-IsSafe)

  pub change_password-Preserves :
      (request : Request) (w : World) → Preserves host w (change_password host request w).1
  unfolding change_password
  change_password-Preserves request w = search kept

  pub recover_password-Preserves :
      (request : Request) (w : World) → Preserves host w (recover_password host request w).1
  unfolding recover_password
  recover_password-Preserves request w = search kept

  pub reset_password-Preserves :
      (request : Request) (w : World) → Preserves host w (reset_password host request w).1
  unfolding reset_password
  reset_password-Preserves request w = search kept

  pub recovery_codes_left-Preserves :
      (request : Request) (w : World) → Preserves host w (recovery_codes_left host request w).1
  unfolding recovery_codes_left
  recovery_codes_left-Preserves request w = search kept

  pub mint_recovery_codes-Preserves :
      (request : Request) (w : World) → Preserves host w (mint_recovery_codes host request w).1
  unfolding mint_recovery_codes
  mint_recovery_codes-Preserves request w = search kept
