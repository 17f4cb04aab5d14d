-- ===== src/Store/Roles.antt =====
-- `RoleRepository` of internal/store/postgres/authz_repository.go
use opentrusty.Prelude.{
  Bool, List, Option, String, [], any_row, delete_rows, find_row, find_rows, if◌then◌else◌, map,
  none, not, some, true, update_rows, ◌&&◌, ◌++◌, ◌==◌, ◌||◌, ◌∷◌,
}
use opentrusty.Domain.Authz.{
  PermissionRow, Role, RolePermission, RoleRow, scope_client, scope_platform, scope_tenant,
}
use opentrusty.Domain.Errors.{Error, database, no_rows, role_not_found, wrapped}
use opentrusty.World.{
  Env, M, World, err, gets, modify, ok, or_raise, raise, stamped_statement, statement, time_now,
  ◌>>=◌, ◌>>◌,
}

abbrev set_roles : List RoleRow → World → World
set_roles rs w = record w { roles = rs }

-- The names of the permissions with the id.
abbrev pub names_of : String → List PermissionRow → List String
names_of pid ps = map (λ p. p.name) (find_rows (λ p. p.id == pid) ps)

-- The LEFT JOINs and `array_agg`.
unfoldable pub role_names : String → List RolePermission → List PermissionRow → List String
role_names rid [] ps = []
role_names rid (rp ∷ rps) ps =
    let rest = role_names rid rps ps in
    if rp.role_id == rid then names_of rp.permission_id ps ++ rest else rest

abbrev pub join : World → RoleRow → Role
join w r = record {
  id = r.id;
  name = r.name;
  scope = r.scope;
  description = r.description;
  permissions = role_names r.id w.role_permissions w.permissions;
  created_at = r.created_at;
  updated_at = r.updated_at;
}

abbrev pub has_id : String → RoleRow → Bool
has_id id r = r.id == id

abbrev pub has_name : String → String → RoleRow → Bool
has_name name scope r = r.name == name && r.scope == scope

abbrev is_scope : String → Bool
is_scope s = s == scope_platform || s == scope_tenant || s == scope_client

-- A query of one role, with the error for no row.
join_or_raise : Option RoleRow → Error → M Role
join_or_raise none e w = (err e, w)
join_or_raise (some r) e w = (ok (join w r), w)

module _ ⦃env : Env⦄ where
  -- The permissions of the role are not written.
  unfoldable pub create : Role → M (Unit {0})
  create c = do
    or_raise statement (wrapped "failed to create role")
    rows ← gets (λ w. w.roles)
    let row : RoleRow = record {
      id = c.id;
      name = c.name;
      scope = c.scope;
      description = c.description;
      created_at = c.created_at;
      updated_at = c.updated_at;
    }
    if any_row (λ r. r.id == c.id || has_name c.name c.scope r) rows || not (is_scope c.scope)
        then raise (wrapped "failed to create role" database)
        else modify (set_roles (rows ++ row ∷ []))

  unfoldable pub get_by_id : String → M Role
  unfolding join_or_raise
  get_by_id id = do
    or_raise statement (wrapped "failed to get role")
    rows ← gets (λ w. w.roles)
    join_or_raise (find_row (has_id id) rows) role_not_found

  -- The error is compared with `sql.ErrNoRows`, which the driver does not return: no row is an
  -- internal error here.
  unfoldable pub get_by_name : String → String → M Role
  unfolding join_or_raise
  get_by_name name scope = do
    or_raise statement (wrapped "failed to get role")
    rows ← gets (λ w. w.roles)
    join_or_raise (find_row (has_name name scope) rows) (wrapped "failed to get role" no_rows)

  -- The trigger overwrites the time that is set.
  unfoldable pub update : Role → M (Unit {0})
  update c = do
    time_now
    now ← or_raise stamped_statement (wrapped "failed to update role")
    rows ← gets (λ w. w.roles)
    if any_row (has_id c.id) rows
        then modify (
            set_roles (
              update_rows (has_id c.id)
                (λ r. record r { description = c.description; updated_at = now }) rows))
        else raise role_not_found

  -- The rows that refer to the role go with it (ON DELETE CASCADE).
  unfoldable pub delete : String → M (Unit {0})
  delete id = do
    or_raise statement (wrapped "failed to delete role")
    rows ← gets (λ w. w.roles)
    if any_row (has_id id) rows
        then modify (λ w. record w {
          roles = delete_rows (has_id id) w.roles;
          role_permissions = delete_rows (λ r. r.role_id == id) w.role_permissions;
          assignments = delete_rows (λ r. r.role_id == id) w.assignments;
        })
        else raise role_not_found

  unfoldable pub list : Option String → M (List Role)
  list scope = do
    or_raise statement (wrapped "failed to list roles")
    gets (λ w.
        map (join w) (find_rows (λ r. elim scope [ none ↦ true | some s ↦ r.scope == s ]) w.roles))
