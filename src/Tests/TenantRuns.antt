-- ===== src/Tests/TenantRuns.antt =====
-- A tenant that Alice creates in the scene, and a role of Bob at it.
use opentrusty.Store.Assignments
use opentrusty.Store.Tenants
use opentrusty.Store.TenantRoles
use opentrusty.Prelude.{any_row, delete_rows, false, refl, true, ◌≡◌}
use opentrusty.Domain.Tenants.{Tenant}
use opentrusty.Tenant.{assign_role, create_named, create_tenant, is_valid_name, revoke_role}
use opentrusty.Tenant.Roles.{Created, create_tenant_lem, holds_at, revoke_role_lem}
use opentrusty.Tests.Scene.{demo, scene}
use opentrusty.Text.{byte_len, is_space, trim_left, trim_right, trim_space}
use opentrusty.World.{Result, World}

abbrev acme : Tenant
acme = record { id = "i."; name = "Acme"; status = "active"; created_at = 102; updated_at = 102 }

abbrev with_acme : Result Tenant × World
with_acme = create_tenant ⦃env = demo⦄ "  Acme " "alice" scene

create_tenant_lem_example : Created (trim_space "  Acme ") "alice" scene with_acme.1 acme
unfolding create_tenant create_named is_valid_name byte_len trim_space trim_left trim_right is_space
    Tenants.get_by_name Tenants.create Assignments.grant
create_tenant_lem_example =
    create_tenant_lem ⦃env = demo⦄ "  Acme " "alice" scene with_acme.1 acme refl

abbrev with_bob : Result (Unit {0}) × World
with_bob = assign_role ⦃env = demo⦄ "t1" "bob" "tenant_owner" "alice" scene

-- The revocation of the role of an admin takes that of an owner.
abbrev without_bob : Result (Unit {0}) × World
without_bob = revoke_role ⦃env = demo⦄ "t1" "bob" "tenant_admin" with_bob.1

revoke_role_lem_example :
    (any_row
        (holds_at "t1" "bob" (TenantRoles.map_tenant_role "tenant_admin"))
        with_bob.1.assignments
      ≡ true)
    × (without_bob.1.assignments
        ≡ delete_rows
            (holds_at "t1" "bob" (TenantRoles.map_tenant_role "tenant_admin"))
            with_bob.1.assignments)
    × (any_row
          (holds_at "t1" "bob" (TenantRoles.map_tenant_role "tenant_admin"))
          without_bob.1.assignments
        ≡ false)
unfolding assign_role TenantRoles.assign_role TenantRoles.map_tenant_role revoke_role
    TenantRoles.revoke_role
revoke_role_lem_example =
    revoke_role_lem ⦃env = demo⦄ "t1" "bob" "tenant_admin" with_bob.1 without_bob.1 refl
