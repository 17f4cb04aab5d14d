-- ===== src/Http/Router/Frames.antt =====
-- The routes of the administrators that leave the roles, their assignments and the clients as they
-- are.
use opentrusty.Session as Lives
use opentrusty.Http.Tenants as Tenants
use opentrusty.Http.Profile as Profiles
use opentrusty.Http.Clients as Clients
use opentrusty.Prelude.{Bool, Option, String, arith, false, inl, inr, none, refl, some, true, ◌≡◌}
use opentrusty.Authz.Permissions.{
  platform_manage_tenants, tenant_manage_clients, user_change_password, user_read_profile,
  user_write_profile,
}
use opentrusty.Authz.Tables.{
  change_password-Keeps, get_client-Keeps, get_session-Keeps, get_user-Keeps, has_permission-Keeps,
  list_clients-Keeps, list_tenants-Keeps, refresh-Keeps, tables, update_client-Keeps,
  update_profile-Keeps,
}
use opentrusty.Domain.Authz.{scope_platform, scope_tenant}
use opentrusty.Domain.Identity.{Profile}
use opentrusty.Domain.Oauth2.{Client}
use opentrusty.Http.{Context, Handler, Request, admit_session, auth_middleware}
use opentrusty.Http.Router.{
  AdminRoute, Payload, at_tenant, serve_admin, to_assign_role, to_change_password, to_create_tenant,
  to_delete_client, to_get_client, to_get_profile, to_list_clients, to_list_tenants, to_nothing,
  to_regenerate_secret, to_register_client, to_revoke_role, to_update_profile,
}
use opentrusty.Oauth2.Client.{generate_token, hash_token}
use opentrusty.Oauth2.Service.{list_clients}
use opentrusty.World.{Env, tick}
use opentrusty.World.Frame.{Keeps}
use opentrusty.World.Laws.{Outcome-cases}

abbrev pub changes_tables : AdminRoute → Bool
changes_tables to_create_tenant = true
changes_tables (to_assign_role t u) = true
changes_tables (to_revoke_role t u role) = true
changes_tables (to_register_client t) = true
changes_tables (to_delete_client t id) = true
changes_tables _ = false

module _ ⦃env : Env⦄ where
  pub auth_middleware-Keeps : (h : Handler) (r : Request) → Keeps tables (auth_middleware h r)
  unfolding auth_middleware admit_session
  auth_middleware-Keeps h r w =
      let k = get_session-Keeps h.session_service r.session_cookie w in
      elim (Outcome-cases (Lives.get h.session_service r.session_cookie w)) [
        | inl (sess, u, e) ↦ ground (arith, refresh-Keeps h.session_service r.session_cookie u)
        | inr (x, u, e) ↦ ground arith
      ]

  pub is_allowed-Keeps :
      (user scope : String) (context : Option String) (permission : String)
      → Keeps tables (Tenants.is_allowed user scope context permission)
  unfolding Tenants.is_allowed
  is_allowed-Keeps user scope context permission w =
      ground (arith, has_permission-Keeps user scope context permission w)

  pub may_manage-Keeps : (c : Context) → Keeps tables (Clients.may_manage_clients c)
  unfolding Clients.may_manage_clients
  may_manage-Keeps c w = ground (
    arith,
    has_permission-Keeps c.user_id scope_tenant (some c.tenant_id) tenant_manage_clients w,
  )

  get_profile-Keeps : (c : Context) → Keeps tables (Profiles.get_profile c)
  unfolding Profiles.get_profile
  get_profile-Keeps c w =
      let k = is_allowed-Keeps c.user_id scope_platform none user_read_profile w in
      elim (Outcome-cases (Tenants.is_allowed c.user_id scope_platform none user_read_profile w)) [
        | inl (b, u, e) ↦ ground (arith, get_user-Keeps c.user_id u)
        | inr (x, u, e) ↦ ground arith
      ]

  profile_page-Keeps :
      (c : Context) (body : Option Profile) → Keeps tables (Profiles.update_profile c body)
  unfolding Profiles.update_profile
  profile_page-Keeps c none w =
      ground (arith, is_allowed-Keeps c.user_id scope_platform none user_write_profile w)
  profile_page-Keeps c (some profile) w =
      let k = is_allowed-Keeps c.user_id scope_platform none user_write_profile w in
      elim (Outcome-cases (Tenants.is_allowed c.user_id scope_platform none user_write_profile w)) [
        | inl (b, u, e) ↦ ground (arith, update_profile-Keeps c.user_id profile u)
        | inr (x, u, e) ↦ ground arith
      ]

  change_with-Keeps :
      (h : Handler) (r : Request) (c : Context) (old new : String)
      → Keeps tables (Profiles.change_with h r c old new)
  unfolding Profiles.change_with
  change_with-Keeps h r c old new w =
      ground (arith, change_password-Keeps h.identity_service c.user_id old new w)

  password_page-Keeps :
      (h : Handler) (r : Request) (c : Context) (body : Option (String × String))
      → Keeps tables (Profiles.change_password h r c body)
  unfolding Profiles.change_password
  password_page-Keeps h r c none w =
      ground (arith, is_allowed-Keeps c.user_id scope_platform none user_change_password w)
  password_page-Keeps h r c (some (old, new)) w =
      let k = is_allowed-Keeps c.user_id scope_platform none user_change_password w in
      elim (Outcome-cases
        (Tenants.is_allowed c.user_id scope_platform none user_change_password w)) [
          | inl (b, u, e) ↦ ground (arith, change_with-Keeps h r c old new u)
          | inr (x, u, e) ↦ ground arith
        ]

  tenant_page-Keeps : (c : Context) → Keeps tables (Tenants.list_tenants c)
  unfolding Tenants.list_tenants
  tenant_page-Keeps c w =
      let k = is_allowed-Keeps c.user_id scope_platform none platform_manage_tenants w in
      elim (Outcome-cases
        (Tenants.is_allowed c.user_id scope_platform none platform_manage_tenants w)) [
          | inl (b, u, e) ↦ ground (arith, list_tenants-Keeps 100 0 u)
          | inr (x, u, e) ↦ ground arith
        ]

  client_page-Keeps : (c : Context) → Keeps tables (Clients.list_tenant_clients c)
  unfolding Clients.list_tenant_clients
  client_page-Keeps c w =
      let k = list_clients-Keeps c.tenant_id w in
      elim (Outcome-cases (list_clients c.tenant_id w)) [
        | inl (found, u, e) ↦ ground (arith, may_manage-Keeps c u)
        | inr (x, u, e) ↦ ground arith
      ]

  own_client-Keeps : (c : Context) (id : String) → Keeps tables (Clients.own_client c id)
  unfolding Clients.own_client
  own_client-Keeps c id w = ground (arith, get_client-Keeps id w)

  show_client-Keeps : (c : Context) (id : String) → Keeps tables (Clients.show_client c id)
  unfolding Clients.show_client
  show_client-Keeps c id w = ground (arith, own_client-Keeps c id w)

  rotate_secret-Keeps :
      (c : Context) (client : Client) (id : String)
      → Keeps tables (Clients.rotate_secret c client id)
  unfolding Clients.rotate_secret generate_token
  rotate_secret-Keeps c client id w =
      let secret = env.base64_raw_url (env.random w.events 32) in
      ground (
        arith,
        update_client-Keeps (record client { client_secret_hash = hash_token secret }) (tick w),
      )

  rotation-Keeps :
      (c : Context) (id : String) → Keeps tables (Clients.regenerate_client_secret c id)
  unfolding Clients.regenerate_client_secret
  rotation-Keeps c id w =
      let k = own_client-Keeps c id w in
      elim (Outcome-cases (Clients.own_client c id w)) [
        | inl (inl client, u, e) ↦ ground (arith, rotate_secret-Keeps c client id u)
        | inl (inr refused, u, e) ↦ ground arith
        | inr (x, u, e) ↦ ground arith
      ]

  -- The routes that neither assign nor revoke a role, nor make a tenant, nor make or delete a client.
  pub serve_admin-Keeps :
      (h : Handler) (r : Request) (b : Payload) (c : Context) (a : AdminRoute)
      → changes_tables a ≡ false
      → Keeps tables (serve_admin h r b c a)
  unfolding serve_admin
  serve_admin-Keeps h r b c to_get_profile n = get_profile-Keeps c
  serve_admin-Keeps h r b c to_update_profile n = profile_page-Keeps c b.profile
  serve_admin-Keeps h r b c to_change_password n = password_page-Keeps h r c b.passwords
  serve_admin-Keeps h r b c to_list_tenants n = tenant_page-Keeps c
  serve_admin-Keeps h r b c (to_list_clients t) n = client_page-Keeps (at_tenant c t)
  serve_admin-Keeps h r b c (to_get_client t id) n = show_client-Keeps (at_tenant c t) id
  serve_admin-Keeps h r b c (to_regenerate_secret t id) n = rotation-Keeps (at_tenant c t) id
  serve_admin-Keeps h r b c to_nothing n = λ w. refl
  serve_admin-Keeps h r b c to_create_tenant n = absurd (ground arith)
  serve_admin-Keeps h r b c (to_assign_role t u) n = absurd (ground arith)
  serve_admin-Keeps h r b c (to_revoke_role t u role) n = absurd (ground arith)
  serve_admin-Keeps h r b c (to_register_client t) n = absurd (ground arith)
  serve_admin-Keeps h r b c (to_delete_client t id) n = absurd (ground arith)
