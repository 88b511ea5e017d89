-- ===== src/Screens.antt =====
-- The interactive parts of the pages under web/components. A handler that awaits is two functions: what
-- it does before the request is sent, with the request, and what it does with the answer. The values
-- that the second part reads of the render that started it are its arguments, so anything may happen
-- to the state between the two.
pub mod Shared
pub mod AddSecrets
pub mod SecretsTable
pub mod Access
pub mod KeyPicker
pub mod Login
pub mod GrantAccess
pub mod CreateToken
pub mod AcceptInvitation
pub mod SignUp
pub mod Recovery
pub mod RotateSecret
pub mod AuditTable
