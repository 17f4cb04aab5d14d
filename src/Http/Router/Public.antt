-- ===== src/Http/Router/Public.antt =====
-- The routes that are not those of the administrators leave the roles, their assignments and the
-- clients as they are (internal/transport/http).
use opentrusty.Store.Assignments
use opentrusty.Store.Roles
use opentrusty.Store.Tenants as TenantRows
use opentrusty.Identity.Service as Accounts
use opentrusty.Http.Tenants as Tenants
use opentrusty.Http.Profile as Profiles
use opentrusty.Http.Oauth2 as Protocols
use opentrusty.Http.Login as Logins
use opentrusty.Tenant as Tenancy
use opentrusty.Prelude.{
  Bool, Bool-cases, List, Option-cases, String, [], arith, false, find_rows, inl, inr, none, refl,
  true, ◌==◌, ◌∷◌, ◌≡◌,
}
use opentrusty.Authz.{UserRoleAssignment, collect_assignments, get_user_role_assignments}
use opentrusty.Authz.Permissions.{user_read_profile}
use opentrusty.Authz.Tables.{get_user-Keeps, tables}
use opentrusty.Domain.Authz.{Assignment, scope_platform}
use opentrusty.Domain.Identity.{User}
use opentrusty.Http.{
  Context, Handler, Reply, Request, auth_middleware, csrf_middleware, pass, stop, tenant_or_empty,
}
use opentrusty.Http.Router.{
  Payload, Provider, Route, serve_route, to_admin, to_authorize, to_discovery, to_health,
  to_key_set, to_login, to_logout, to_me, to_nowhere, to_register, to_revoke, to_token, with_csrf,
  with_session,
}
use opentrusty.Http.Router.Endpoints.{authorize-Keeps, revoke-Keeps, token-Keeps}
use opentrusty.Http.Router.Entry.{login-Keeps, logout-Keeps}
use opentrusty.Http.Router.Frames.{auth_middleware-Keeps, is_allowed-Keeps}
use opentrusty.World.{Env, M, pure, tick}
use opentrusty.World.Frame.{Keeps}
use opentrusty.World.Laws.{Outcome-cases}

abbrev pub is_admin_route : Route → Bool
is_admin_route (to_admin a) = true
is_admin_route _ = false

module _ ⦃env : Env⦄ where
  collect-Keeps : (items : List Assignment) → Keeps tables (collect_assignments items)
  unfolding collect_assignments Roles.get_by_id
  collect-Keeps [] w = refl
  collect-Keeps (a ∷ more) w = ground (arith, collect-Keeps more (tick w))

  get_user_role_assignments-Keeps : (user : String) → Keeps tables (get_user_role_assignments user)
  unfolding get_user_role_assignments Assignments.list_for_user
  get_user_role_assignments-Keeps user w =
      ground (arith, collect-Keeps (find_rows (λ a. a.user_id == user) w.assignments) (tick w))

  get_tenant-Keeps : (id : String) → Keeps tables (Tenancy.get_tenant id)
  unfolding Tenancy.get_tenant TenantRows.get_by_id
  get_tenant-Keeps id w = ground arith

  current_tenant-Keeps :
      (items : List UserRoleAssignment) → Keeps tables (Profiles.current_tenant items)
  unfolding Profiles.current_tenant
  current_tenant-Keeps [] w = refl
  current_tenant-Keeps (a ∷ more) w =
      let id = tenant_or_empty a.context in
      let k = get_tenant-Keeps id w in
      elim (Bool-cases (Profiles.names_tenant a)) [
        | inr other ↦ ground (arith, current_tenant-Keeps more w)
        | inl names ↦ elim (Outcome-cases (Tenancy.get_tenant id w)) [
          | inl (t, u, e) ↦ ground arith
          | inr (x, u, e) ↦ ground (arith, current_tenant-Keeps more u)
        ]
      ]

  show_with_roles-Keeps :
      (id : String) (user : User) → Keeps tables (Profiles.show_with_roles id user)
  unfolding Profiles.show_with_roles
  show_with_roles-Keeps id user w =
      let k = get_user_role_assignments-Keeps id w in
      elim (Outcome-cases (get_user_role_assignments id w)) [
        | inr (x, u, e) ↦ ground (arith, current_tenant-Keeps [] u)
        | inl (held, u, e) ↦ ground (arith, current_tenant-Keeps held u)
      ]

  get_current_user-Keeps : (c : Context) → Keeps tables (Profiles.get_current_user c)
  unfolding Profiles.get_current_user
  get_current_user-Keeps c w =
      let k = is_allowed-Keeps c.user_id scope_platform none user_read_profile w in
      elim (Outcome-cases (Tenants.is_allowed c.user_id scope_platform none user_read_profile w)) [
        | inr (x, u, e) ↦ ground arith
        | inl (false, u, e) ↦ ground arith
        | inl (true, u, e) ↦
            let k' = get_user-Keeps c.user_id u in
            elim (Outcome-cases (Accounts.get_user c.user_id u)) [
              | inr (x, v, f) ↦ ground arith
              | inl (user, v, f) ↦ ground (arith, show_with_roles-Keeps c.user_id user v)
            ]
      ]

  with_csrf-Keeps : (r : Request) (m : M Reply) → Keeps tables m → Keeps tables (with_csrf r m)
  unfolding with_csrf
  with_csrf-Keeps r m k w = elim (Option-cases (csrf_middleware r)) [
    | inl e ↦ ground (arith, k w)
    | inr (refused, e) ↦ ground arith
  ]

  with_session-Keeps :
      (h : Handler) (r : Request) (m : Context → M Reply)
      → ((c : Context) → Keeps tables (m c))
      → Keeps tables (with_session h r m)
  unfolding with_session
  with_session-Keeps h r m k w =
      let g = auth_middleware-Keeps h r w in
      elim (Outcome-cases (auth_middleware h r w)) [
        | inr (x, u, e) ↦ ground arith
        | inl (stop refused, u, e) ↦ ground arith
        | inl (pass c, u, e) ↦ ground (arith, k c u)
      ]

  -- The routes that are not those of the administrators.
  pub serve_public-Keeps :
      (h : Handler) (p : Provider) (r : Request) (b : Payload) (t : Route)
      → is_admin_route t ≡ false
      → Keeps tables (serve_route h p r b t)
  unfolding serve_route
  serve_public-Keeps h p r b to_health n = λ w. refl
  serve_public-Keeps h p r b to_discovery n = λ w. refl
  serve_public-Keeps h p r b to_key_set n = λ w. refl
  serve_public-Keeps h p r b to_authorize n =
      with_session-Keeps h r (λ c. Protocols.authorize r c.user_id)
        (λ c. authorize-Keeps r c.user_id)
  serve_public-Keeps h p r b to_token n = token-Keeps h r
  serve_public-Keeps h p r b to_revoke n = revoke-Keeps r
  serve_public-Keeps h p r b to_login n = with_csrf-Keeps r (Logins.login h r) (login-Keeps h r)
  serve_public-Keeps h p r b to_logout n = with_csrf-Keeps r (Logins.logout h r) (logout-Keeps h r)
  serve_public-Keeps h p r b to_register n = with_csrf-Keeps r (pure Profiles.register) (λ w. refl)
  serve_public-Keeps h p r b to_me n =
      with_session-Keeps h r Profiles.get_current_user get_current_user-Keeps
  serve_public-Keeps h p r b (to_admin a) n = absurd (ground arith)
  serve_public-Keeps h p r b to_nowhere n = λ w. refl
