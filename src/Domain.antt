-- ===== src/Domain.antt =====
-- The data model of the services.
pub mod Errors
pub mod Sessions
pub mod Identity
pub mod Authz
pub mod Oauth2
pub mod Audit
pub mod Tenants
