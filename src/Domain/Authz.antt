-- ===== src/Domain/Authz.antt =====
-- internal/authz/models.go, and the rows of the role tables.
use opentrusty.Prelude.{List, Option, String, ℕ}

-- `Scope`
abbrev pub scope_platform : String
scope_platform = "platform"

abbrev pub scope_tenant : String
scope_tenant = "tenant"

abbrev pub scope_client : String
scope_client = "client"

pub record Role : Type 0 where
  pub id : String
  pub name : String
  pub scope : String
  pub description : String
  pub permissions : List String
  pub created_at : ℕ
  pub updated_at : ℕ

-- A row of `rbac_roles`; the permissions come by a join.
pub record RoleRow : Type 0 where
  pub id : String
  pub name : String
  pub scope : String
  pub description : String
  pub created_at : ℕ
  pub updated_at : ℕ

-- A row of `rbac_permissions`.
pub record PermissionRow : Type 0 where
  pub id : String
  pub name : String

-- A row of `rbac_role_permissions`.
pub record RolePermission : Type 0 where
  pub role_id : String
  pub permission_id : String

pub record Assignment : Type 0 where
  pub id : String
  pub user_id : String
  pub role_id : String
  pub scope : String
  pub scope_context_id : Option String
  pub granted_at : ℕ
  pub granted_by : String

pub record Project : Type 0 where
  pub id : String
  pub name : String
  pub description : String
  pub owner_id : String
  pub created_at : ℕ
  pub updated_at : ℕ
  pub deleted_at : Option ℕ
