-- ===== src/Http/Router.antt =====
-- `NewRouter` of internal/transport/http/handlers.go. The matching of a path is that of the library
-- chi: a path is the list of its segments, and a parameter of a pattern is any segment. The
-- middlewares that only measure, log or recover are left out; the limiter of requests is in Front.
pub mod Frames
pub mod Methods
pub mod Public
pub mod Grants
pub mod Endpoints
pub mod Entry
pub mod Entitled
pub mod Front
use opentrusty.Http.Tenants as Tenants
use opentrusty.Http.Profile as Profiles
use opentrusty.Http.Clients as Clients
use opentrusty.Http.Login as Logins
use opentrusty.Http.Oauth2 as Protocols
use opentrusty.Domain.Identity as People
use opentrusty.Oidc as Oidc
use opentrusty.Prelude.{
  Bool, List, Option, String, [], if◌then◌else◌, none, some, ◌&&◌, ◌==◌, ◌||◌, ◌∷◌,
}
use opentrusty.Http.{
  Context, Handler, Reply, Request, auth_middleware, csrf_middleware, discovery, key_set, pass,
  reply, stop, unrouted,
}
use opentrusty.Oidc.KeySet.{PublicKey, get_discovery_metadata, get_jwks}
use opentrusty.World.{Env, M, pure, ◌>>=◌, ◌>>◌}

-- What the handlers would decode the body of a request to, each its own way.
pub record Payload : Type 0 where
  pub tenant_name : Option String
  pub role : Option String
  pub profile : Option People.Profile
  pub passwords : Option (String × String)
  pub registration : Option Clients.Registration

-- The routes behind `AuthMiddleware` and `CSRFMiddleware`.
pub data AdminRoute : Type 0 where
  to_get_profile to_update_profile to_change_password to_list_tenants : AdminRoute
  to_create_tenant : AdminRoute
  to_assign_role : String → String → AdminRoute
  to_revoke_role : String → String → String → AdminRoute
  to_list_clients to_register_client : String → AdminRoute
  to_get_client to_delete_client to_regenerate_secret : String → String → AdminRoute
  to_nothing : AdminRoute

pub data Route : Type 0 where
  to_health to_discovery to_key_set to_authorize to_token to_revoke : Route
  to_login to_logout to_register to_me : Route
  to_admin : AdminRoute → Route
  to_nowhere : Route

abbrev either : Bool → AdminRoute → AdminRoute
either test a = if test then a else to_nothing

unfoldable pub route_role : String → String → List String → AdminRoute
route_role method tenant (user ∷ last ∷ []) =
    either (last == "roles" && method == "POST") (to_assign_role tenant user)
route_role method tenant (user ∷ last ∷ role ∷ []) =
    either (last == "roles" && method == "DELETE") (to_revoke_role tenant user role)
route_role method tenant _ = to_nothing

unfoldable pub route_client : String → String → List String → AdminRoute
route_client method tenant [] =
    if method == "GET"
    then to_list_clients tenant
    else either (method == "POST") (to_register_client tenant)
route_client method tenant (id ∷ []) =
    if method == "GET"
    then to_get_client tenant id
    else either (method == "DELETE") (to_delete_client tenant id)
route_client method tenant (id ∷ last ∷ []) =
    either (last == "secret" && method == "POST") (to_regenerate_secret tenant id)
route_client method tenant _ = to_nothing

unfoldable pub route_tenant : String → List String → AdminRoute
unfolding route_role route_client
route_tenant method [] =
    if method == "GET" then to_list_tenants else either (method == "POST") to_create_tenant
route_tenant method (tenant ∷ []) = to_nothing
route_tenant method (tenant ∷ part ∷ more) =
    if part == "users"
    then route_role method tenant more
    else if part == "clients"
    then route_client method tenant more
    else to_nothing

unfoldable pub route_user : String → List String → Route
route_user method (part ∷ []) =
    if part == "profile" && method == "GET"
    then to_admin to_get_profile
    else if part == "profile" && method == "PUT"
    then to_admin to_update_profile
    else if part == "change-password" && method == "POST"
    then to_admin to_change_password
    else to_nowhere
route_user method _ = to_nowhere

abbrev pub has_auth : String → Bool
has_auth mode = mode == "auth" || mode == "all"

abbrev pub has_admin : String → Bool
has_admin mode = mode == "admin" || mode == "all"

unfoldable pub route_auth : String → String → List String → Route
route_auth mode method (part ∷ []) =
    if has_auth mode && method == "POST" && part == "login"
    then to_login
    else if has_auth mode && method == "POST" && part == "logout"
    then to_logout
    else if has_auth mode && method == "POST" && part == "register"
    then to_register
    else if has_admin mode && method == "GET" && part == "me"
    then to_me
    else to_nowhere
route_auth mode method _ = to_nowhere

-- The paths below `/api/v1`.
unfoldable pub route_api : String → String → List String → Route
unfolding route_auth route_user route_tenant
route_api mode method [] = to_nowhere
route_api mode method (part ∷ more) =
    if part == "auth"
    then route_auth mode method more
    else if has_admin mode && part == "user"
    then route_user method more
    else if has_admin mode && part == "tenants"
    then to_admin (route_tenant method more)
    else to_nowhere

unfoldable pub route_oauth2 : String → String → Route
route_oauth2 method part =
    if method == "GET" && part == "authorize"
    then to_authorize
    else if method == "POST" && part == "token"
    then to_token
    else if method == "POST" && part == "revoke"
    then to_revoke
    else to_nowhere

-- The paths with two segments that are not below `/api/v1`.
unfoldable pub route_page : String → String → String → String → Route
unfolding route_oauth2
route_page mode method part page =
    if has_auth mode && part == "oauth2"
    then route_oauth2 method page
    else if has_auth mode
        && method == "GET"
        && part == ".well-known"
        && page == "openid-configuration"
    then to_discovery
    else to_nowhere

abbrev is_api : String → String → Bool
is_api part version = part == "api" && version == "v1"

unfoldable pub route : String → String → List String → Route
unfolding route_api route_page
route mode method [] = to_nowhere
route mode method (part ∷ []) =
    if method == "GET" && part == "health"
    then to_health
    else if has_auth mode && method == "GET" && part == "jwks.json"
    then to_key_set
    else to_nowhere
route mode method (part ∷ page ∷ []) =
    if is_api part page then route_api mode method [] else route_page mode method part page
route mode method (part ∷ page ∷ next ∷ more) =
    if is_api part page then route_api mode method (next ∷ more) else to_nowhere

-- The middleware below `/tenants/{tenantID}` puts the tenant of the path into the context.
abbrev pub at_tenant : Context → String → Context
at_tenant c tenant = record c { tenant_id = tenant }

-- The provider of `oidcService`: the service and its public key.
pub record Provider : Type 0 where
  pub oidc : Oidc.Service
  pub key : PublicKey

module _ ⦃env : Env⦄ where
  unfoldable pub serve_admin : Handler → Request → Payload → Context → AdminRoute → M Reply
  serve_admin h r b c to_get_profile = Profiles.get_profile c
  serve_admin h r b c to_update_profile = Profiles.update_profile c b.profile
  serve_admin h r b c to_change_password = Profiles.change_password h r c b.passwords
  serve_admin h r b c to_list_tenants = Tenants.list_tenants c
  serve_admin h r b c to_create_tenant = Tenants.create_tenant c b.tenant_name
  serve_admin h r b c (to_assign_role tenant user) =
      Tenants.assign_tenant_role (at_tenant c tenant) tenant user b.role
  serve_admin h r b c (to_revoke_role tenant user role) =
      Tenants.revoke_tenant_role (at_tenant c tenant) tenant user role
  serve_admin h r b c (to_list_clients tenant) = Clients.list_tenant_clients (at_tenant c tenant)
  serve_admin h r b c (to_register_client tenant) =
      Clients.register_client (at_tenant c tenant) b.registration
  serve_admin h r b c (to_get_client tenant id) = Clients.show_client (at_tenant c tenant) id
  serve_admin h r b c (to_delete_client tenant id) = Clients.remove_client (at_tenant c tenant) id
  serve_admin h r b c (to_regenerate_secret tenant id) =
      Clients.regenerate_client_secret (at_tenant c tenant) id
  serve_admin h r b c to_nothing = pure (reply unrouted)

  -- `AuthMiddleware` around a handler.
  unfoldable pub with_session : Handler → Request → (Context → M Reply) → M Reply
  with_session h r k = do
    gate ← auth_middleware h r
    elim gate [ stop refused ↦ pure refused | pass c ↦ k c ]

  -- `CSRFMiddleware` around a handler.
  unfoldable pub with_csrf : Request → M Reply → M Reply
  with_csrf r k = elim (csrf_middleware r) [ none ↦ k | some refused ↦ pure refused ]

  unfoldable pub serve_route : Handler → Provider → Request → Payload → Route → M Reply
  unfolding serve_admin with_session with_csrf
  serve_route h p r b to_health = pure Profiles.health_check
  serve_route h p r b to_discovery = pure (reply (discovery (get_discovery_metadata p.oidc)))
  serve_route h p r b to_key_set = pure (reply (key_set (get_jwks p.oidc p.key)))
  serve_route h p r b to_authorize = with_session h r (λ c. Protocols.authorize r c.user_id)
  serve_route h p r b to_token = Protocols.token h r
  serve_route h p r b to_revoke = Protocols.revoke r
  serve_route h p r b to_login = with_csrf r (Logins.login h r)
  serve_route h p r b to_logout = with_csrf r (Logins.logout h r)
  serve_route h p r b to_register = with_csrf r (pure Profiles.register)
  serve_route h p r b to_me = with_session h r Profiles.get_current_user
  serve_route h p r b (to_admin a) = with_session h r (λ c. with_csrf r (serve_admin h r b c a))
  serve_route h p r b to_nowhere = pure (reply unrouted)

  unfoldable pub serve : Handler → Provider → Request → Payload → List String → M Reply
  unfolding route serve_route
  serve h p r b path = serve_route h p r b (route h.mode r.method path)
