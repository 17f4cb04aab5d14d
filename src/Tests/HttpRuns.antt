-- ===== src/Tests/HttpRuns.antt =====
-- Requests to the scene.
use opentrusty.Identity.Login as Logins
use opentrusty.Identity.Password
use opentrusty.Store.Users
use opentrusty.Store.Roles
use opentrusty.Store.Assignments
use opentrusty.Session as Sessions
use opentrusty.Identity.Service as Accounts
use opentrusty.Store.Sessions as Repo
use opentrusty.Store.Clients
use opentrusty.Store.Codes
use opentrusty.Prelude.{
  ==_iff, String, [], arith, false, find_row, if◌then◌else◌, inr, none, refl, some, true, ◌++◌, ◌-◌,
  ◌==◌, ◌∷◌, ◌≡◌, ◌≢◌, ◌≤◌, ◌⊎◌,
}
use opentrusty.Authz.{any_grant, grants, has_permission, in_scope}
use opentrusty.Authz.Decision.{is_granted}
use opentrusty.Authz.Permissions.{platform_manage_tenants}
use opentrusty.Domain.Authz.{scope_platform}
use opentrusty.Domain.Errors.{invalid_request}
use opentrusty.Domain.Identity.{User}
use opentrusty.Domain.Oauth2.{AuthorizationCode, Client, TokenResponse}
use opentrusty.Domain.Sessions.{SessionRow}
use opentrusty.Http.{
  Context, Gate, Reply, Request, admit_session, auth_middleware, empty_ok, get_ip_address, holding,
  pass, redirect, reply, tenant_or_empty,
}
use opentrusty.Http.Gatekeeping.{auth_middleware_admin_mode, auth_middleware_sound}
use opentrusty.Http.Login.{has_admin_role, login, login_user, login_with, start_session}
use opentrusty.Http.Login.Admins.{login_sound}
use opentrusty.Http.Oauth2.{
  authorize, authorize_request, authorize_valid, client_credentials, revoke, token,
}
use opentrusty.Http.Redirects.{authorize_sound, authorize_unknown_client}
use opentrusty.Http.Revocation.{revoke_lem}
use opentrusty.Oauth2.Authorize.{create_authorization_code, new_code, validate_authorize_request}
use opentrusty.Oauth2.Authorize.Accept.{MayAsk}
use opentrusty.Oauth2.Client.{
  allows_all, generate_token, hash_token, lists, validate_redirect_uri, validate_scope,
}
use opentrusty.Oauth2.Refresh.Revocation.{IsRevoked}
use opentrusty.Tests.HttpScene.{asked_query, handler, request_of}
use opentrusty.Tests.Scene.{
  alice, alice_credentials, app, demo, scene, stored_refresh_token, viewer,
}
use opentrusty.Text.{fields, fields_from, is_space}
use opentrusty.World.{Result, World, ok, tick}

abbrev alice_context : Context
alice_context = record { user_id = "alice"; session_id = "s1"; tenant_id = "t1" }

abbrev gate : Result Gate × World
gate = auth_middleware ⦃env = demo⦄ (handler "all") (request_of asked_query) scene

auth_middleware_sound_example :
    (row : SessionRow) × (find_row (Repo.has_id "s1") scene.sessions ≡ some row)
    × (101 ≤ row.expires_at)
    × (102 - row.last_seen_at ≤ 60)
    × (alice_context.user_id ≡ row.user_id)
    × (alice_context.tenant_id ≡ tenant_or_empty row.tenant_id)
    × ((request_of asked_query).tenant_header ≡ "")
unfolding auth_middleware admit_session Sessions.get Sessions.is_expired Sessions.is_idle
    Sessions.refresh Repo.get Repo.update
auth_middleware_sound_example =
    auth_middleware_sound ⦃env = demo⦄ (handler "all") (request_of asked_query) scene gate.1
      alice_context refl

auth_middleware_admin_mode_example :
    auth_middleware ⦃env = demo⦄ (handler "admin") (request_of asked_query) scene
    ≢ (ok (pass alice_context), scene)
auth_middleware_admin_mode_example =
    auth_middleware_admin_mode ⦃env = demo⦄ (handler "admin") (request_of asked_query) scene scene
      alice_context refl

abbrev sent : Result Reply × World
sent = authorize ⦃env = demo⦄ (request_of asked_query) "alice" scene

authorize_sound_example :
    (client : Client) × (find_row (Clients.has_client_id "app") scene.clients ≡ some client)
    × MayAsk (authorize_request (request_of asked_query)) client
    × ("https://app/cb" ≡ (request_of asked_query).query "redirect_uri")
    × (alice_context.user_id ≢ "")
    × ((c : AuthorizationCode) × (sent.1.codes ≡ scene.codes ++ c ∷ [])
        × (c.code ≡ "ab.")
        × (c.user_id ≡ "alice")
        × (c.client_id ≡ "app")
        × (c.redirect_uri ≡ "https://app/cb")
        × (c.is_used ≡ false))
unfolding authorize authorize_request authorize_valid validate_authorize_request
    validate_redirect_uri validate_scope allows_all lists fields fields_from is_space
    Clients.get_by_client_id create_authorization_code new_code generate_token Codes.create
authorize_sound_example =
    authorize_sound ⦃env = demo⦄ (request_of asked_query) "alice" "https://app/cb" "ab." "st" scene
      sent.1 refl

abbrev foreign_query : String → String
foreign_query name =
    if name == "client_id" then "ghost" else if name == "redirect_uri" then "https://evil" else ""

authorize_unknown_client_example : authorize ⦃env = demo⦄ (request_of foreign_query) "" scene ≡ (
  ok (
      reply (
        redirect "https://evil" (
          ("error", invalid_request)
          ∷ ("error_description", "invalid client_id")
          ∷ ("state", "")
          ∷ []))),
  tick scene,
)
authorize_unknown_client_example =
    authorize_unknown_client ⦃env = demo⦄ (request_of foreign_query) "" scene refl refl

-- A user of no tenant who is an admin of the platform.
abbrev root : User
root = record alice { id = "root"; tenant_id = none; email = "root@home" }

abbrev admin_scene : World
admin_scene = record scene {
  users = alice ∷ root ∷ [];
  credentials = (record alice_credentials { user_id = "root" }) ∷ [];
  roles = (record viewer { id = "admin" }) ∷ [];
  permissions = (record { id = "p1"; name = platform_manage_tenants }) ∷ [];
  role_permissions = (record { role_id = "admin"; permission_id = "p1" }) ∷ [];
  assignments =
      (record {
        id = "a1";
        user_id = "root";
        role_id = "admin";
        scope = scope_platform;
        scope_context_id = none;
        granted_at = 0;
        granted_by = "";
      })
      ∷ [];
}

abbrev root_logged_in : Result Reply × World
root_logged_in = login ⦃env = demo⦄ (handler "all") (request_of asked_query) admin_scene

login_sound_example :
    (row : User) × (find_row (Users.has_email none "root@home") admin_scene.users ≡ some row)
    × (row.tenant_id ≡ none)
    × (root.id ≡ row.id)
    × Logins.Verifies ⦃env = demo⦄ admin_scene "root" "secret"
    × (is_granted admin_scene "root" scope_platform none platform_manage_tenants ≡ true)
unfolding login login_with login_user has_admin_role start_session get_ip_address Sessions.create
    Sessions.generate_session_id Sessions.destroy Repo.create Repo.delete has_permission any_grant
    in_scope grants Assignments.list_for_user Roles.get_by_id Roles.role_names Accounts.authenticate
    Accounts.authenticate_user Accounts.is_locked Accounts.record_success Users.get_by_email
    Users.get_credentials Password.verify Password.sections Password.verify_sections
    Password.scan_version Password.scan_parameters Password.same_hash Password.scan_int
    Password.scan_uint Password.scan_text Password.scan_digits Password.skip_space
    Password.drop_sign Password.sections_from Password.difference is_space
login_sound_example =
    login_sound ⦃env = demo⦄ (handler "all") (request_of asked_query) "root@home" "secret" "root"
      "root@home" (holding "ab.") admin_scene root_logged_in.1 refl refl

-- The forms of the token endpoint and of the revocation.
abbrev posted : String → String
posted name =
    if name == "grant_type"
    then "authorization_code"
    else if name == "code"
    then "code1"
    else if name == "redirect_uri"
    then "https://app/cb"
    else if name == "client_id"
    then "app"
    else if name == "client_secret"
    then "SS"
    else if name == "token"
    then "AzA"
    else ""

abbrev post : Request
post = record (request_of asked_query) { method = "POST"; form = some posted }

abbrev issued : Result Reply × World
issued = token ⦃env = demo⦄ (handler "all") post scene

abbrev issued_tokens : TokenResponse
issued_tokens = record {
  access_token = "ab.";
  token_type = "Bearer";
  expires_in = 3600;
  refresh_token = "bb.";
  id_token = "";
  scope = "openid offline_access";
}

revoke_lem_example :
    (w' : World) × (revoke ⦃env = demo⦄ post scene ≡ (ok (reply empty_ok), w'))
    × (((stored_refresh_token.client_id ≡ (client_credentials posted none).0)
          × IsRevoked (hash_token ⦃env = demo⦄ "AzA") w')
        ⊎ ((stored_refresh_token.client_id ≢ (client_credentials posted none).0)
            × (w'.refresh_tokens ≡ scene.refresh_tokens)))
unfolding hash_token client_credentials
revoke_lem_example =
    revoke_lem ⦃env = demo⦄ post posted scene app stored_refresh_token (λ n. refl) refl
      (record { registered = refl; active = refl; secret_known = inr refl })
      (λ h. ground (arith, ==_iff "AzA" "")) refl
