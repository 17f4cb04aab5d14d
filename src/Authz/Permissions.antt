-- ===== src/Authz/Permissions.antt =====
-- internal/authz/permissions.go and roles.go, and the seeds of
-- internal/store/postgres/migrations/001_initial_schema.up.sql.
use opentrusty.Prelude.{List, String, [], ◌++◌, ◌∷◌}

abbrev pub platform_manage_tenants : String
platform_manage_tenants = "platform:manage_tenants"

abbrev pub platform_manage_admins : String
platform_manage_admins = "platform:manage_admins"

abbrev pub platform_view_audit : String
platform_view_audit = "platform:view_audit"

abbrev pub platform_bootstrap : String
platform_bootstrap = "platform:bootstrap"

abbrev pub tenant_manage_users : String
tenant_manage_users = "tenant:manage_users"

abbrev pub tenant_manage_clients : String
tenant_manage_clients = "tenant:manage_clients"

abbrev pub tenant_manage_settings : String
tenant_manage_settings = "tenant:manage_settings"

abbrev pub tenant_view_users : String
tenant_view_users = "tenant:view_users"

abbrev pub tenant_view : String
tenant_view = "tenant:view"

abbrev pub tenant_view_audit : String
tenant_view_audit = "tenant:view_audit"

abbrev pub user_read_profile : String
user_read_profile = "user:read_profile"

abbrev pub user_write_profile : String
user_write_profile = "user:write_profile"

abbrev pub user_change_password : String
user_change_password = "user:change_password"

abbrev pub user_manage_sessions : String
user_manage_sessions = "user:manage_sessions"

abbrev pub client_token_introspect : String
client_token_introspect = "client:token_introspect"

abbrev pub client_token_revoke : String
client_token_revoke = "client:token_revoke"

abbrev pub platform_permissions : List String
platform_permissions =
    platform_manage_tenants ∷ platform_manage_admins ∷ platform_view_audit ∷ platform_bootstrap ∷ []

abbrev pub tenant_permissions : List String
tenant_permissions =
    tenant_manage_users ∷ tenant_manage_clients ∷ tenant_manage_settings ∷ tenant_view_users
    ∷ tenant_view ∷ tenant_view_audit ∷ []

abbrev pub user_permissions : List String
user_permissions =
    user_read_profile ∷ user_write_profile ∷ user_change_password ∷ user_manage_sessions ∷ []

-- `AllPermissions`
abbrev pub all_permissions : List String
all_permissions =
    platform_permissions
    ++ (tenant_permissions
        ++ (user_permissions ++ client_token_introspect ∷ client_token_revoke ∷ []))

-- `PlatformAdminPermissions`
abbrev pub platform_admin_permissions : List String
platform_admin_permissions = "*" ∷ []

-- `TenantOwnerPermissions`
abbrev pub tenant_owner_permissions : List String
tenant_owner_permissions = tenant_permissions ++ user_permissions

-- `TenantAdminPermissions`
abbrev pub tenant_admin_permissions : List String
tenant_admin_permissions =
    tenant_manage_users ∷ tenant_manage_clients ∷ tenant_view_users ∷ tenant_view
    ∷ user_read_profile ∷ user_write_profile ∷ user_change_password ∷ user_manage_sessions ∷ []

-- `TenantMemberPermissions`
abbrev pub tenant_member_permissions : List String
tenant_member_permissions =
    tenant_view ∷ user_read_profile ∷ user_write_profile ∷ user_change_password ∷ []
