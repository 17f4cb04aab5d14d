-- ===== src/Store.antt =====
-- The repositories of internal/store/postgres: each runs its statements on the tables.
pub mod Sessions
pub mod Codes
pub mod AccessTokens
pub mod RefreshTokens
pub mod Clients
pub mod Users
pub mod Tenants
pub mod TenantRoles
pub mod Assignments
pub mod Roles
pub mod Projects
pub mod Keys
