-- ===== src/Authz/Tables.antt =====
-- The tables of the roles, of their assignments and of the clients, and the steps that leave them as
-- they are.
use opentrusty.Store.Assignments
use opentrusty.Store.Roles
use opentrusty.Store.Users
use opentrusty.Store.Clients
use opentrusty.Store.Tenants
use opentrusty.Store.Sessions
use opentrusty.Identity.Service as Accounts
use opentrusty.Identity.Password as Password
use opentrusty.Session as Lives
use opentrusty.Prelude.{
  Bool, List, Option, String, [], ap, arith, find_rows, inl, inr, map, refl, suc, update_rows, ℕ,
  ◌==◌, ◌∷◌, ◌≡◌,
}
use opentrusty.Authz.{any_grant, has_permission}
use opentrusty.Authz.Decision.{is_granted}
use opentrusty.Domain.Authz.{Assignment, PermissionRow, RolePermission, RoleRow}
use opentrusty.Domain.Identity.{Profile}
use opentrusty.Domain.Oauth2.{Client}
use opentrusty.Oauth2.Service.{get_client, list_clients, update_client}
use opentrusty.Tenant.{list_tenants}
use opentrusty.World.{Env, World, tick}
use opentrusty.World.Frame.{Keeps}
use opentrusty.World.Laws.{Outcome-cases}

-- What tells a client from another and lets it authenticate.
pub record KnownClient : Type 0 where
  pub id : String
  pub client_id : String
  pub tenant_id : String
  pub client_secret_hash : String
  pub deleted_at : Option ℕ

abbrev pub known : Client → KnownClient
known c = record {
  id = c.id;
  client_id = c.client_id;
  tenant_id = c.tenant_id;
  client_secret_hash = c.client_secret_hash;
  deleted_at = c.deleted_at;
}

-- What the tables of the roles and of their assignments hold, and that of the clients as far as it
-- is about who they are.
pub record Tables : Type 0 where
  pub assignments : List Assignment
  pub roles : List RoleRow
  pub permissions : List PermissionRow
  pub role_permissions : List RolePermission
  pub clients : List KnownClient

abbrev pub tables : World → Tables
tables w = record {
  assignments = w.assignments;
  roles = w.roles;
  permissions = w.permissions;
  role_permissions = w.role_permissions;
  clients = map known w.clients;
}

-- A change of rows that says nothing new of who the clients are.
map-known-update_rows :
    (test : Client → Bool) (change : Client → Client)
    → ((c : Client) → known (change c) ≡ known c)
    → (rows : List Client) → map known (update_rows test change rows) ≡ map known rows
map-known-update_rows test change h [] = refl
map-known-update_rows test change h (c ∷ cs) =
    ground (arith, h c, map-known-update_rows test change h cs)

-- The same tables grant the same permissions.
pub is_granted_of_tables :
    (u w : World) (user scope : String) (context : Option String) (permission : String)
    → tables u ≡ tables w
    → is_granted u user scope context permission ≡ is_granted w user scope context permission
is_granted_of_tables u w user scope context permission e =
    ap
      (λ t.
        is_granted
          (record w {
            assignments = t.assignments;
            roles = t.roles;
            permissions = t.permissions;
            role_permissions = t.role_permissions;
          })
          user scope context permission)
      e

module _ ⦃env : Env⦄ where
  any_grant-Keeps :
      (items : List Assignment) (scope : String) (context : Option String) (permission : String)
      → Keeps tables (any_grant items scope context permission)
  unfolding any_grant Roles.get_by_id
  any_grant-Keeps [] scope context permission w = refl
  any_grant-Keeps (a ∷ more) scope context permission w = ground (
    arith,
    any_grant-Keeps more scope context permission (tick w),
    any_grant-Keeps more scope context permission w,
  )

  pub has_permission-Keeps :
      (user scope : String) (context : Option String) (permission : String)
      → Keeps tables (has_permission user scope context permission)
  unfolding has_permission Assignments.list_for_user
  has_permission-Keeps user scope context permission w = ground (
    arith,
    any_grant-Keeps (find_rows (λ a. a.user_id == user) w.assignments) scope context permission
        (tick w),
  )

  -- The statements on the other tables.
  pub get_session-Keeps : (s : Lives.Service) (id : String) → Keeps tables (Lives.get s id)
  unfolding Lives.get Lives.is_expired Lives.is_idle Sessions.get Sessions.delete
  get_session-Keeps s id w = ground arith

  pub refresh-Keeps : (s : Lives.Service) (id : String) → Keeps tables (Lives.refresh s id)
  unfolding Lives.refresh Sessions.update
  refresh-Keeps s id w =
      let k = get_session-Keeps s id w in
      elim (Outcome-cases (Lives.get s id w)) [
        | inl (sess, u, e) ↦ ground arith
        | inr (x, u, e) ↦ ground arith
      ]

  pub get_user-Keeps : (id : String) → Keeps tables (Accounts.get_user id)
  unfolding Accounts.get_user Users.get_by_id
  get_user-Keeps id w = ground arith

  pub update_profile-Keeps :
      (id : String) (profile : Profile) → Keeps tables (Accounts.update_profile id profile)
  unfolding Accounts.update_profile Users.get_by_id Users.update
  update_profile-Keeps id profile w = ground arith

  pub change_password-Keeps :
      (s : Accounts.Service) (id old_password new_password : String)
      → Keeps tables (Accounts.change_password s id old_password new_password)
  unfolding Accounts.change_password Users.get_credentials Password.hash Users.update_password
  change_password-Keeps s id old_password new_password w = ground arith

  pub list_clients-Keeps : (tenant : String) → Keeps tables (list_clients tenant)
  unfolding list_clients Clients.list_by_tenant
  list_clients-Keeps tenant w = ground arith

  pub get_client-Keeps : (id : String) → Keeps tables (get_client id)
  unfolding get_client Clients.get_by_id
  get_client-Keeps id w = ground arith

  pub update_client-Keeps : (c : Client) → Keeps tables (update_client c)
  unfolding update_client Clients.update
  update_client-Keeps c w =
      let t = env.clock (suc w.events) in
      let same =
        map-known-update_rows (Clients.has_id c.id) (Clients.overwrite c t) (λ d. refl) w.clients in
      ground (arith, same)

  pub list_tenants-Keeps : (limit offset : ℕ) → Keeps tables (list_tenants limit offset)
  unfolding list_tenants Tenants.list
  list_tenants-Keeps limit offset w = ground arith
