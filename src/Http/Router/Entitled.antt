-- ===== src/Http/Router/Entitled.antt =====
-- Who is entitled to what a route of the administrators asks for, and the handlers that check it
-- (internal/transport/http/tenant_handler.go, oauth2_client_handler.go).
use opentrusty.Http.Tenants as Tenants
use opentrusty.Http.Clients as Clients
use opentrusty.Prelude.{
  Bool, Option, String, arith, false, inl, inr, none, refl, some, true, ◌≡◌, ◌⊎◌,
}
use opentrusty.Authz.{has_permission}
use opentrusty.Authz.Decision.{has_permission-is_granted, is_granted}
use opentrusty.Authz.Permissions.{
  platform_manage_tenants, tenant_manage_clients, tenant_manage_users,
}
use opentrusty.Authz.Tables.{is_granted_of_tables, tables}
use opentrusty.Domain.Authz.{scope_platform, scope_tenant}
use opentrusty.Http.{Context}
use opentrusty.Http.Clients.Removal.{may_manage_clients_sound}
use opentrusty.Http.Router.{
  AdminRoute, to_assign_role, to_create_tenant, to_delete_client, to_register_client,
  to_revoke_role,
}
use opentrusty.Http.Router.Frames.{changes_tables, is_allowed-Keeps, may_manage-Keeps}
use opentrusty.World.{Env, World, ok}
use opentrusty.World.Laws.{Outcome-cases}

-- The tables grant the user what a route that changes roles or clients asks for.
abbrev pub entitled : World → String → AdminRoute → Bool
entitled w user to_create_tenant = is_granted w user scope_platform none platform_manage_tenants
entitled w user (to_assign_role t u) = is_granted w user scope_tenant (some t) tenant_manage_users
entitled w user (to_revoke_role t u role) =
    is_granted w user scope_tenant (some t) tenant_manage_users
entitled w user (to_register_client t) =
    is_granted w user scope_tenant (some t) tenant_manage_clients
entitled w user (to_delete_client t id) =
    is_granted w user scope_tenant (some t) tenant_manage_clients
entitled w user _ = false

module _ ⦃env : Env⦄ where
  is_allowed_sound :
      (user scope : String) (context : Option String) (permission : String) (w w' : World)
      → Tenants.is_allowed user scope context permission w ≡ (ok true, w')
      → is_granted w user scope context permission ≡ true
  unfolding Tenants.is_allowed
  is_allowed_sound user scope context permission w w' h =
      elim (Outcome-cases (has_permission user scope context permission w)) [
        | inr (x, u, f) ↦ absurd (ground arith)
        | inl (b, u, f) ↦ has_permission-is_granted scope context permission user w u (ground arith)
      ]

  pub create_tenant_entitled :
      (c : Context) (body : Option String) (w : World)
      → (tables (Tenants.create_tenant c body w).1 ≡ tables w)
        ⊎ (is_granted w c.user_id scope_platform none platform_manage_tenants ≡ true)
  unfolding Tenants.create_tenant
  create_tenant_entitled c body w =
      let k = is_allowed-Keeps c.user_id scope_platform none platform_manage_tenants w in
      elim (Outcome-cases
        (Tenants.is_allowed c.user_id scope_platform none platform_manage_tenants w)) [
          | inr (x, u, e) ↦ inl (ground arith)
          | inl (false, u, e) ↦ inl (ground arith)
          | inl (true, u, e) ↦
              inr (is_allowed_sound c.user_id scope_platform none platform_manage_tenants w u e)
        ]

  pub assign_role_entitled :
      (c : Context) (tenant user : String) (body : Option String) (w : World)
      → (tables (Tenants.assign_tenant_role c tenant user body w).1 ≡ tables w)
        ⊎ (is_granted w c.user_id scope_tenant (some tenant) tenant_manage_users ≡ true)
  unfolding Tenants.assign_tenant_role
  assign_role_entitled c tenant user none w = inl refl
  assign_role_entitled c tenant user (some role) w =
      let k = is_allowed-Keeps c.user_id scope_tenant (some tenant) tenant_manage_users w in
      elim (Outcome-cases
        (Tenants.is_allowed c.user_id scope_tenant (some tenant) tenant_manage_users w)) [
          | inr (x, u, e) ↦ inl (ground arith)
          | inl (false, u, e) ↦ inl (ground arith)
          | inl (true, u, e) ↦
              inr (is_allowed_sound c.user_id scope_tenant (some tenant) tenant_manage_users w u e)
        ]

  pub revoke_role_entitled :
      (c : Context) (tenant user role : String) (w : World)
      → (tables (Tenants.revoke_tenant_role c tenant user role w).1 ≡ tables w)
        ⊎ (is_granted w c.user_id scope_tenant (some tenant) tenant_manage_users ≡ true)
  unfolding Tenants.revoke_tenant_role
  revoke_role_entitled c tenant user role w =
      let k = is_allowed-Keeps c.user_id scope_tenant (some tenant) tenant_manage_users w in
      elim (Outcome-cases
        (Tenants.is_allowed c.user_id scope_tenant (some tenant) tenant_manage_users w)) [
          | inr (x, u, e) ↦ inl (ground arith)
          | inl (false, u, e) ↦ inl (ground arith)
          | inl (true, u, e) ↦
              inr (is_allowed_sound c.user_id scope_tenant (some tenant) tenant_manage_users w u e)
        ]

  pub register_client_entitled :
      (c : Context) (body : Option Clients.Registration) (w : World)
      → (tables (Clients.register_client c body w).1 ≡ tables w)
        ⊎ (is_granted w c.user_id scope_tenant (some c.tenant_id) tenant_manage_clients ≡ true)
  unfolding Clients.register_client
  register_client_entitled c body w =
      let k = may_manage-Keeps c w in
      elim (Outcome-cases (Clients.may_manage_clients c w)) [
        | inr (x, u, e) ↦ inl (ground arith)
        | inl (false, u, e) ↦ inl (ground arith)
        | inl (true, u, e) ↦ inr (may_manage_clients_sound c w u e)
      ]

  pub remove_client_entitled :
      (c : Context) (id : String) (w : World)
      → (tables (Clients.remove_client c id w).1 ≡ tables w)
        ⊎ (is_granted w c.user_id scope_tenant (some c.tenant_id) tenant_manage_clients ≡ true)
  unfolding Clients.remove_client
  remove_client_entitled c id w =
      let k = may_manage-Keeps c w in
      elim (Outcome-cases (Clients.may_manage_clients c w)) [
        | inr (x, u, e) ↦ inl (ground arith)
        | inl (false, u, e) ↦ inl (ground arith)
        | inl (true, u, e) ↦ inr (may_manage_clients_sound c w u e)
      ]

  pub entitled_of_tables :
      (u w : World) (user : String) (a : AdminRoute)
      → tables u ≡ tables w
      → entitled u user a ≡ entitled w user a
  entitled_of_tables u w user to_create_tenant e =
      is_granted_of_tables u w user scope_platform none platform_manage_tenants e
  entitled_of_tables u w user (to_assign_role t v) e =
      is_granted_of_tables u w user scope_tenant (some t) tenant_manage_users e
  entitled_of_tables u w user (to_revoke_role t v role) e =
      is_granted_of_tables u w user scope_tenant (some t) tenant_manage_users e
  entitled_of_tables u w user (to_register_client t) e =
      is_granted_of_tables u w user scope_tenant (some t) tenant_manage_clients e
  entitled_of_tables u w user (to_delete_client t id) e =
      is_granted_of_tables u w user scope_tenant (some t) tenant_manage_clients e
  entitled_of_tables u w user a e = refl

  pub entitled-changes_tables :
      (w : World) (user : String) (a : AdminRoute)
      → entitled w user a ≡ true
      → changes_tables a ≡ true
  entitled-changes_tables w user to_create_tenant h = refl
  entitled-changes_tables w user (to_assign_role t u) h = refl
  entitled-changes_tables w user (to_revoke_role t u role) h = refl
  entitled-changes_tables w user (to_register_client t) h = refl
  entitled-changes_tables w user (to_delete_client t id) h = refl
  entitled-changes_tables w user a h = absurd (ground arith)
