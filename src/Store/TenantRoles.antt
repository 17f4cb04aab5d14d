-- ===== src/Store/TenantRoles.antt =====
-- `TenantRoleRepository` of internal/store/postgres/tenant_role_repository.go
pub mod Constraints
use opentrusty.Store.Assignments
use opentrusty.Prelude.{
  Bool, List, String, [], any_row, delete_rows, find_row, find_rows, if◌then◌else◌, none,
  same_text?, some, ◌&&◌, ◌++◌, ◌==◌, ◌||◌, ◌∷◌,
}
use opentrusty.Domain.Authz.{Assignment, RoleRow, scope_tenant}
use opentrusty.Domain.Errors.{database, tenant_role_not_found, wrapped}
use opentrusty.Domain.Tenants.{TenantUserRole, role_tenant_admin, role_tenant_owner}
use opentrusty.World.{Env, M, gets, modify, or_raise, raise, skip, statement, time_now, ◌>>=◌, ◌>>◌}

-- `MapTenantRole`: an owner has the role of an admin.
unfoldable pub map_tenant_role : String → String
map_tenant_role role =
    if role == role_tenant_owner || role == role_tenant_admin
    then "20000000-0000-0000-0000-000000000002"
    else "20000000-0000-0000-0000-000000000003"

abbrev pub for_tenant : String → Assignment → Bool
for_tenant tenant r = r.scope == scope_tenant && same_text? r.scope_context_id (some tenant)

-- An inner join with `rbac_roles`: an assignment whose role is missing has no row.
unfoldable pub joined : List RoleRow → List Assignment → List TenantUserRole
joined roles [] = []
joined roles (a ∷ more) =
    let rest = joined roles more in
    elim (find_row (λ r. r.id == a.role_id) roles) [
      | none ↦ rest
      | some r ↦
          (record {
            id = a.id;
            tenant_id = elim a.scope_context_id [ none ↦ "" | some t ↦ t ];
            user_id = a.user_id;
            role = r.name;
            granted_at = a.granted_at;
            granted_by = a.granted_by;
          })
          ∷ rest
    ]

module _ ⦃env : Env⦄ where
  -- The statement is that of `Grant`, with the time of the call.
  unfoldable pub assign_role : TenantUserRole → M (Unit {0})
  unfolding map_tenant_role
  assign_role role = do
    now ← time_now
    or_raise statement (wrapped "failed to assign role")
    rows ← gets (λ w. w.assignments)
    let a : Assignment = record {
      id = role.id;
      user_id = role.user_id;
      role_id = map_tenant_role role.role;
      scope = scope_tenant;
      scope_context_id = some role.tenant_id;
      granted_at = now;
      granted_by = role.granted_by;
    }
    if any_row (Assignments.duplicates a) rows
        then skip
        else if any_row (λ r. r.id == a.id) rows
        then raise (wrapped "failed to assign role" database)
        else modify (λ w. record w { assignments = rows ++ a ∷ [] })

  unfoldable pub revoke_role : String → String → String → M (Unit {0})
  unfolding map_tenant_role
  revoke_role tenant user role = do
    or_raise statement (wrapped "failed to revoke role")
    rows ← gets (λ w. w.assignments)
    let target : Assignment → Bool =
        λ r. r.user_id == user && r.role_id == map_tenant_role role && for_tenant tenant r
    if any_row target rows
        then modify (λ w. record w { assignments = delete_rows target rows })
        else raise tenant_role_not_found

  unfoldable pub get_user_roles : String → String → M (List TenantUserRole)
  unfolding joined
  get_user_roles tenant user = do
    or_raise statement (wrapped "failed to get user roles")
    gets (λ w.
        joined w.roles (find_rows (λ r. r.user_id == user && for_tenant tenant r) w.assignments))

  unfoldable pub get_tenant_users : String → M (List TenantUserRole)
  unfolding joined
  get_tenant_users tenant = do
    or_raise statement (wrapped "failed to get tenant users")
    gets (λ w. joined w.roles (find_rows (for_tenant tenant) w.assignments))
