-- ===== src/Tenant/Roles.antt =====
-- Who holds which role at a tenant after the operations of internal/tenant/service.go.
use opentrusty.Store.Assignments
use opentrusty.Store.Tenants
use opentrusty.Store.TenantRoles
use opentrusty.Prelude.{
  ==_refl, Bool, List, String, [], any-delete_rows, any_row, any_row-append_new, arith, delete_rows,
  false, inl, inr, none, refl, same_text?_iff, some, subst, suc, true, ◌&&◌, ◌++◌, ◌==◌, ◌∙◌, ◌∷◌,
  ◌≡◌,
}
use opentrusty.Domain.Authz.{Assignment, scope_tenant}
use opentrusty.Domain.Tenants.{Tenant}
use opentrusty.Tenant.{
  assign_role, create_named, create_tenant, is_valid_name, revoke_role, tenant_admin_id,
}
use opentrusty.Text.{trim_space}
use opentrusty.World.{Env, World, ok, tick}
use opentrusty.World.Laws.{Outcome-cases}

-- The user has the role of this identifier at the tenant.
abbrev pub holds_at : String → String → String → Assignment → Bool
holds_at tenant user role_id r =
    r.user_id == user && r.role_id == role_id && TenantRoles.for_tenant tenant r

-- What a tenant that was created is, by the tables before and after.
pub record Created (name creator : String) (w w' : World) (t : Tenant) : Type 0 where
  pub named : t.name ≡ name
  pub valid : is_valid_name name ≡ true
  pub active : t.status ≡ "active"
  pub fresh : any_row (λ r. r.tenant.id == t.id) w.tenants ≡ false
  pub stored : w'.tenants ≡ w.tenants ++ (record { tenant = t; deleted_at = none }) ∷ []
  pub held : any_row (holds_at t.id creator tenant_admin_id) w'.assignments ≡ true

module _ ⦃env : Env⦄ where
  duplicates-holds_at :
      (a : Assignment) (tenant : String) (rows : List Assignment)
      → a.scope ≡ scope_tenant
      → a.scope_context_id ≡ some tenant
      → any_row (Assignments.duplicates a) rows ≡ true
      → any_row (holds_at tenant a.user_id a.role_id) rows ≡ true
  duplicates-holds_at a tenant [] e f h = ground arith
  duplicates-holds_at a tenant (r ∷ more) e f h =
      ground (arith, duplicates-holds_at a tenant more e f)

  holds_itself :
      (a : Assignment) (tenant : String)
      → a.scope ≡ scope_tenant
      → a.scope_context_id ≡ some tenant
      → holds_at tenant a.user_id a.role_id a ≡ true
  holds_itself a tenant e f = ground (
    arith,
    ==_refl a.user_id,
    ==_refl a.role_id,
    ==_refl a.scope,
    same_text?_iff a.scope_context_id (some tenant),
  )

  -- After a role was assigned the user holds it at the tenant; an owner and an admin hold the same
  -- role of the database.
  pub assign_role_lem :
      (tenant user role by : String) (w w' : World)
      → assign_role tenant user role by w ≡ (ok tt, w')
      → any_row (holds_at tenant user (TenantRoles.map_tenant_role role)) w'.assignments ≡ true
  unfolding assign_role TenantRoles.assign_role
  assign_role_lem tenant user role by w w' h =
      let a : Assignment = record {
        id = env.uuid w.events;
        user_id = user;
        role_id = TenantRoles.map_tenant_role role;
        scope = scope_tenant;
        scope_context_id = some tenant;
        granted_at = env.clock (suc w.events);
        granted_by = by;
      } in
      ground (
        arith,
        duplicates-holds_at a tenant w.assignments refl refl,
        any_row-append_new (holds_at tenant user (TenantRoles.map_tenant_role role)) w.assignments a
            (holds_itself a tenant refl refl),
      )

  -- A revocation succeeds only for a user who holds at the tenant the role of the database that the
  -- name stands for, which is that of the admin for an owner and an admin, and that of the member
  -- for any other name; the user does not hold that role there after, and every other assignment
  -- stays.
  pub revoke_role_lem :
      (tenant user role : String) (w w' : World)
      → revoke_role tenant user role w ≡ (ok tt, w')
      → (any_row (holds_at tenant user (TenantRoles.map_tenant_role role)) w.assignments ≡ true)
        × (w'.assignments
            ≡ delete_rows (holds_at tenant user (TenantRoles.map_tenant_role role)) w.assignments)
        × (any_row (holds_at tenant user (TenantRoles.map_tenant_role role)) w'.assignments ≡ false)
  unfolding revoke_role TenantRoles.revoke_role
  revoke_role_lem tenant user role w w' h =
      let test = holds_at tenant user (TenantRoles.map_tenant_role role) in
      let e : w'.assignments ≡ delete_rows test w.assignments = ground arith in
      (ground arith, e, rw e (any-delete_rows test w.assignments))

  grant_lem :
      (a : Assignment) (tenant : String) (w w' : World)
      → a.scope ≡ scope_tenant
      → a.scope_context_id ≡ some tenant
      → Assignments.grant a w ≡ (ok tt, w')
      → (any_row (holds_at tenant a.user_id a.role_id) w'.assignments ≡ true)
        × (w'.tenants ≡ w.tenants)
  unfolding Assignments.grant
  grant_lem a tenant w w' e f h = ground (
    arith,
    duplicates-holds_at a tenant w.assignments e f,
    any_row-append_new (holds_at tenant a.user_id a.role_id) w.assignments a
        (holds_itself a tenant e f),
  )

  insert_lem :
      (t : Tenant) (w w' : World)
      → Tenants.create t w ≡ (ok tt, w')
      → (any_row (λ r. r.tenant.id == t.id) w.tenants ≡ false)
        × (w'.tenants ≡ w.tenants ++ (record { tenant = t; deleted_at = none }) ∷ [])
  unfolding Tenants.create
  insert_lem t w w' h = (ground arith, ground arith)

  lookup_keeps : (name : String) (w : World) → (Tenants.get_by_name name w).1 ≡ tick w
  unfolding Tenants.get_by_name
  lookup_keeps name w = ground arith

  create_named_lem :
      (name creator : String) (w w' : World) (t : Tenant)
      → create_named name creator w ≡ (ok t, w')
      → Created name creator w w' t
  unfolding create_named
  create_named_lem name creator w w' t h =
      let k = lookup_keeps name w in
      let u = tick (tick (tick w)) in
      let made : Tenant = record {
        id = env.uuid (suc w.events);
        name = name;
        status = "active";
        created_at = env.clock (suc (suc w.events));
        updated_at = env.clock (suc (suc w.events));
      } in
      elim (Outcome-cases (Tenants.create made u)) [
        | inr (x, v, e) ↦ absurd (ground arith)
        | inl (x, v, e) ↦
            let a : Assignment = record {
              id = env.uuid v.events;
              user_id = creator;
              role_id = tenant_admin_id;
              scope = scope_tenant;
              scope_context_id = some made.id;
              granted_at = made.created_at;
              granted_by = "";
            } in
            let (same, valid, granted) : (made ≡ t)
                × (is_valid_name name ≡ true)
                × (Assignments.grant a (tick v) ≡ (ok tt, w')) =
              ground arith in
            let (fresh, stored) = insert_lem made u v e in
            let (held, kept) = grant_lem a made.id (tick v) w' refl refl granted in
            subst (Created name creator w w') same (record {
              named = refl;
              valid = valid;
              active = refl;
              fresh = fresh;
              stored = kept ∙ stored;
              held = held;
            })
      ]

  -- The creator of a tenant has the role of the tenant's admin at it; the tenant is stored, active
  -- and under the trimmed name, which is valid, and its identifier was not in use.
  pub create_tenant_lem :
      (name creator : String) (w w' : World) (t : Tenant)
      → create_tenant name creator w ≡ (ok t, w')
      → Created (trim_space name) creator w w' t
  unfolding create_tenant
  create_tenant_lem name creator w w' t h = create_named_lem (trim_space name) creator w w' t h
