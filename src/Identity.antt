-- ===== src/Identity.antt =====
-- internal/identity: password hashes, and the accounts.
pub mod Password
pub mod Service
pub mod Login
pub mod Bootstrap
