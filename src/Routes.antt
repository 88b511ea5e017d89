-- ===== src/Routes.antt =====
-- What the routes under web/app/api share. Each route is a function of the platform, the request, the
-- identifiers of its path, and the state; the modules below hold one family of routes each.
mod Shared
mod Safe
pub mod Discovery
pub mod Account
pub mod Passkeys
pub mod Members
pub mod Projects
pub mod Secrets
