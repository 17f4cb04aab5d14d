-- ===== src/Domain/Tenants.antt =====
-- internal/tenant/tenant.go and internal/tenant/roles.go
use opentrusty.Prelude.{Option, String, ℕ}

pub record Tenant : Type 0 where
  pub id : String
  pub name : String
  pub status : String
  pub created_at : ℕ
  pub updated_at : ℕ

-- A row of the table `tenants`.
pub record TenantRow : Type 0 where
  pub tenant : Tenant
  pub deleted_at : Option ℕ

pub record TenantUserRole : Type 0 where
  pub id : String
  pub tenant_id : String
  pub user_id : String
  pub role : String
  pub granted_at : ℕ
  pub granted_by : String

abbrev pub role_tenant_owner : String
role_tenant_owner = "tenant_owner"

abbrev pub role_tenant_admin : String
role_tenant_admin = "tenant_admin"

abbrev pub role_tenant_member : String
role_tenant_member = "tenant_member"
