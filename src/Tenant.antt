-- ===== src/Tenant.antt =====
-- `Service` of internal/tenant/service.go
pub mod Roles
use Prim.Native.String.{◌++◌ as append}
use opentrusty.Store.Assignments
use opentrusty.Store.Tenants
use opentrusty.Store.TenantRoles
use opentrusty.Prelude.{
  Bool, List, String, [], false, leb, not, some, true, ℕ, ◌&&◌, ◌==◌, ◌||◌, ◌∷◌,
}
use opentrusty.Domain.Audit.{event, text}
use opentrusty.Domain.Authz.{scope_tenant}
use opentrusty.Domain.Errors.{invalid_tenant_name, message, tenant_already_exists, wrapped}
use opentrusty.Domain.Tenants.{
  Tenant, TenantUserRole, role_tenant_admin, role_tenant_member, role_tenant_owner,
}
use opentrusty.Text.{byte_len, trim_space}
use opentrusty.World.{
  Env, M, Result, attempt, err, log, new_uuid, ok, or_raise, pure, raise_if, time_now, ◌>>=◌, ◌>>◌,
}

-- `RoleIDTenantAdmin` of internal/rbac/constants.go
abbrev pub tenant_admin_id : String
tenant_admin_id = "20000000-0000-0000-0000-000000000002"

abbrev is_ok : {A : Type 0} → Result A → Bool
is_ok (ok _) = true
is_ok (err _) = false

unfoldable pub is_valid_name : String → Bool
unfolding byte_len
is_valid_name name = not (name == "") && leb 3 (byte_len name) && leb (byte_len name) 100

abbrev pub is_known_role : String → Bool
is_known_role role =
    role == role_tenant_owner || role == role_tenant_admin || role == role_tenant_member

module _ ⦃env : Env⦄ where
  -- `CreateTenant` after the name is trimmed. Without a transaction: the tenant stays when the role
  -- cannot be granted.
  unfoldable pub create_named : String → String → M Tenant
  create_named name creator = do
    raise_if (not (is_valid_name name)) invalid_tenant_name
    existing ← attempt (Tenants.get_by_name name)
    raise_if (is_ok existing) tenant_already_exists
    tenant_id ← new_uuid
    now ← time_now
    let tenant : Tenant = record {
      id = tenant_id;
      name = name;
      status = "active";
      created_at = now;
      updated_at = now;
    }
    or_raise (Tenants.create tenant) (wrapped "failed to create tenant")
    assignment_id ← new_uuid
    or_raise
        (Assignments.grant (record {
          id = assignment_id;
          user_id = creator;
          role_id = tenant_admin_id;
          scope = scope_tenant;
          scope_context_id = some tenant_id;
          granted_at = now;
          granted_by = "";
        }))
        (wrapped "failed to assign tenant admin role")
    pure tenant

  unfoldable pub create_tenant : String → String → M Tenant
  unfolding trim_space create_named
  create_tenant name creator = create_named (trim_space name) creator

  unfoldable pub get_tenant : String → M Tenant
  get_tenant id = Tenants.get_by_id id

  unfoldable pub get_tenant_by_name : String → M Tenant
  get_tenant_by_name name = Tenants.get_by_name name

  unfoldable pub list_tenants : ℕ → ℕ → M (List Tenant)
  list_tenants limit offset = Tenants.list limit offset

  unfoldable pub assign_role : String → String → String → String → M (Unit {0})
  assign_role tenant_id user_id role granted_by = do
    raise_if (not (is_known_role role)) (message (append "invalid role: " role))
    id ← new_uuid
    TenantRoles.assign_role (record {
      id = id;
      tenant_id = tenant_id;
      user_id = user_id;
      role = role;
      granted_at = 0;
      granted_by = granted_by;
    })
    log (event "role_assigned" tenant_id granted_by role (("actor_id", text user_id) ∷ []))

  unfoldable pub revoke_role : String → String → String → M (Unit {0})
  revoke_role tenant_id user_id role = do
    TenantRoles.revoke_role tenant_id user_id role
    log (event "role_revoked" tenant_id "" role (("actor_id", text user_id) ∷ []))

  unfoldable pub get_user_roles : String → String → M (List TenantUserRole)
  get_user_roles tenant_id user_id = TenantRoles.get_user_roles tenant_id user_id

  unfoldable pub get_tenant_users : String → M (List TenantUserRole)
  get_tenant_users tenant_id = TenantRoles.get_tenant_users tenant_id
