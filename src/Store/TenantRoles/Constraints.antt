-- ===== src/Store/TenantRoles/Constraints.antt =====
-- The constraints of the schema on the table of the assignments, and the statements that write it
-- (internal/store/postgres/authz_repository.go and tenant_role_repository.go).
use opentrusty.Store.Assignments
use opentrusty.Store.Roles
use opentrusty.Store.TenantRoles as TenantRoles
use opentrusty.Prelude.{
  ==_iff, Bool, List, Option, String, [], any_row, any_row_or, arith, consistent, consistent-append,
  consistent-delete, delete_rows, false, same_text?_iff, some, true, ◌&&◌, ◌++◌, ◌==◌, ◌||◌, ◌∷◌,
  ◌≡◌,
}
use opentrusty.Domain.Authz.{Assignment, scope_tenant}
use opentrusty.Domain.Tenants.{TenantUserRole}
use opentrusty.World.{Env, World}

-- Two rows that a key of the table forbids.
abbrev pub clashes : Assignment → Assignment → Bool
clashes a r = r.id == a.id || Assignments.duplicates a r

-- Each row is of a scope with its context, and no two rows clash.
abbrev pub is_consistent : List Assignment → Bool
is_consistent rows = consistent Assignments.is_well_scoped clashes rows

clashes_sym : (a r : Assignment) → clashes a r ≡ true → clashes r a ≡ true
clashes_sym a r h = ground (
  arith,
  ==_iff r.id a.id,
  ==_iff a.id r.id,
  ==_iff r.user_id a.user_id,
  ==_iff a.user_id r.user_id,
  ==_iff r.role_id a.role_id,
  ==_iff a.role_id r.role_id,
  ==_iff r.scope a.scope,
  ==_iff a.scope r.scope,
  same_text?_iff r.scope_context_id a.scope_context_id,
  same_text?_iff a.scope_context_id r.scope_context_id,
)

append-is_consistent :
    (rows : List Assignment) (a : Assignment)
    → is_consistent rows ≡ true
    → Assignments.is_well_scoped a ≡ true
    → any_row (λ r. r.id == a.id) rows ≡ false
    → any_row (Assignments.duplicates a) rows ≡ false
    → is_consistent (rows ++ a ∷ []) ≡ true
append-is_consistent rows a h well id unique =
    consistent-append Assignments.is_well_scoped clashes clashes_sym rows a h well
      (any_row_or (λ r. r.id == a.id) (Assignments.duplicates a) rows id unique)

delete-is_consistent :
    (drop : Assignment → Bool) (rows : List Assignment)
    → is_consistent rows ≡ true
    → is_consistent (delete_rows drop rows) ≡ true
delete-is_consistent drop rows h = consistent-delete Assignments.is_well_scoped clashes drop rows h

module _ ⦃env : Env⦄ where
  grant-is_consistent :
      (a : Assignment) (w : World)
      → is_consistent w.assignments ≡ true
      → is_consistent (Assignments.grant a w).1.assignments ≡ true
  unfolding Assignments.grant
  grant-is_consistent a w h = ground (arith, append-is_consistent w.assignments a)

  revoke-is_consistent :
      (user role scope : String) (context : Option String) (w : World)
      → is_consistent w.assignments ≡ true
      → is_consistent (Assignments.revoke user role scope context w).1.assignments ≡ true
  unfolding Assignments.revoke
  revoke-is_consistent user role scope context w h = ground (
    arith,
    delete-is_consistent (λ r. r.user_id == user && Assignments.holds role scope context r)
        w.assignments,
  )

  assign_role-is_consistent :
      (role : TenantUserRole) (w : World)
      → is_consistent w.assignments ≡ true
      → is_consistent (TenantRoles.assign_role role w).1.assignments ≡ true
  unfolding TenantRoles.assign_role
  assign_role-is_consistent role w h =
      let a : Assignment = record {
        id = role.id;
        user_id = role.user_id;
        role_id = TenantRoles.map_tenant_role role.role;
        scope = scope_tenant;
        scope_context_id = some role.tenant_id;
        granted_at = env.clock w.events;
        granted_by = role.granted_by;
      } in
      ground (arith, append-is_consistent w.assignments a)

  revoke_role-is_consistent :
      (tenant user role : String) (w : World)
      → is_consistent w.assignments ≡ true
      → is_consistent (TenantRoles.revoke_role tenant user role w).1.assignments ≡ true
  unfolding TenantRoles.revoke_role
  revoke_role-is_consistent tenant user role w h = ground (
    arith,
    delete-is_consistent
        (λ r.
          r.user_id == user
          && r.role_id == TenantRoles.map_tenant_role role
          && TenantRoles.for_tenant tenant r)
        w.assignments,
  )

  -- The assignments of a role go with it.
  delete_role-is_consistent :
      (id : String) (w : World)
      → is_consistent w.assignments ≡ true
      → is_consistent (Roles.delete id w).1.assignments ≡ true
  unfolding Roles.delete
  delete_role-is_consistent id w h =
      ground (arith, delete-is_consistent (λ r. r.role_id == id) w.assignments)

-- A statement that writes the table, or anything that leaves it as it is.
pub data Step ⦃env : Env⦄ (w w' : World) : Type 0 where
  granting : (a : Assignment) → w' ≡ (Assignments.grant a w).1 → Step w w'
  revoking :
      (user role scope : String) (context : Option String)
      → w' ≡ (Assignments.revoke user role scope context w).1
      → Step w w'
  assigning : (role : TenantUserRole) → w' ≡ (TenantRoles.assign_role role w).1 → Step w w'
  unassigning :
      (tenant user role : String) → w' ≡ (TenantRoles.revoke_role tenant user role w).1 → Step w w'
  deleting_role : (id : String) → w' ≡ (Roles.delete id w).1 → Step w w'
  elsewhere : w'.assignments ≡ w.assignments → Step w w'

pub data Reach ⦃env : Env⦄ (w : World) : World → Type 0 where
  here : Reach w w
  then_step : {u v : World} → Reach w u → Step u v → Reach w v

module _ ⦃env : Env⦄ where
  Step-is_consistent :
      {w w' : World}
      → Step w w'
      → is_consistent w.assignments ≡ true
      → is_consistent w'.assignments ≡ true
  Step-is_consistent {w} (granting a e) h = rw e (grant-is_consistent a w h)
  Step-is_consistent {w} (revoking user role scope context e) h =
      rw e (revoke-is_consistent user role scope context w h)
  Step-is_consistent {w} (assigning role e) h = rw e (assign_role-is_consistent role w h)
  Step-is_consistent {w} (unassigning tenant user role e) h =
      rw e (revoke_role-is_consistent tenant user role w h)
  Step-is_consistent {w} (deleting_role id e) h = rw e (delete_role-is_consistent id w h)
  Step-is_consistent (elsewhere e) h = rw e h

  -- Whatever statements of the repositories run, the deletion of a role with its assignments
  -- included, in whatever order and whether or not they fail, if at first each assignment has a
  -- scope with the context it asks for, and no two have the same identifier, or the same user,
  -- role, scope and context, then it is so after them.
  pub Reach-is_consistent :
      {w w' : World}
      → Reach w w'
      → is_consistent w.assignments ≡ true
      → is_consistent w'.assignments ≡ true
  Reach-is_consistent here h = h
  Reach-is_consistent (then_step r st) h = Step-is_consistent st (Reach-is_consistent r h)
