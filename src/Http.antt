-- ===== src/Http.antt =====
-- Requests, replies and the middleware of internal/transport/http (middleware.go, context.go).
pub mod Oauth2
pub mod Login
pub mod Clients
pub mod Gatekeeping
pub mod Redirects
pub mod Revocation
pub mod Tokens
pub mod Tenants
pub mod Profile
pub mod Router
pub mod RateLimiter
use opentrusty.Session as Sessions
use opentrusty.Identity.Service as Accounts
use opentrusty.Oauth2.Service as Protocols
use opentrusty.Prelude.{
  List, Option, String, if◌then◌else◌, ltb, none, not, some, ℕ, ◌&&◌, ◌==◌, ◌||◌,
}
use opentrusty.Authz.{UserRoleAssignment}
use opentrusty.Domain.Errors.{Error, Protocol}
use opentrusty.Domain.Identity.{User}
use opentrusty.Domain.Oauth2.{Client, TokenResponse}
use opentrusty.Domain.Sessions.{Session}
use opentrusty.Domain.Tenants.{Tenant, TenantUserRole}
use opentrusty.Oidc.KeySet.{DiscoveryMetadata, Jwk}
use opentrusty.Text.{byte_len}
use opentrusty.World.{Env, M, attempt, err, ok, pure, ◌>>=◌, ◌>>◌}

-- The part of `Handler` that the handlers below read.
pub record Handler : Type 0 where
  pub identity_service : Accounts.Service
  pub session_service : Sessions.Service
  pub oauth2_service : Protocols.Service
  pub mode : String

-- What the handlers read of a request. A cookie, a header, a query or a form value that is missing
-- is the empty text; a form or a body that cannot be parsed is `none`.
pub record Request : Type 0 where
  pub method : String
  pub session_cookie : String
  pub tenant_header : String
  pub csrf_header : String
  pub forwarded_for : String
  pub real_ip : String
  pub remote_addr : String
  pub user_agent : String
  pub query : String → String
  pub form : Option (String → String)
  pub basic_auth : Option (String × String)
  pub login_body : Option (String × String)

-- The values of the request's context.
pub record Context : Type 0 where
  pub user_id : String
  pub session_id : String
  pub tenant_id : String

pub data Cookie : Type 0 where
  untouched : Cookie
  cleared : Cookie
  holding : String → Cookie

pub data Body : Type 0 where
  json_error : ℕ → String → Body
  oauth_error : ℕ → Protocol → Body
  -- a redirect to a location with these parameters added
  redirect : String → List (String × String) → Body
  tokens : TokenResponse → Body
  empty_ok : Body
  logged_in : String → String → Body
  logged_out : Body
  -- an error whose text is a prefix and the text of an error
  json_error_of : ℕ → String → Error → Body
  client_registered : String → String → String → Body
  client_list : List Client → Body
  client_shown : Client → Body
  client_secret : String → Body
  no_content : Body
  -- an object with the one key `status`, and one with the one key `message`
  status_shown : String → Body
  message_shown : String → Body
  health : String → String → Body
  discovery : DiscoveryMetadata → Body
  key_set : List Jwk → Body
  -- the router has no handler for the path, or for the method at the path
  unrouted : Body
  tenant_made : Tenant → Body
  tenant_list : List Tenant → Body
  tenant_users : List TenantUserRole → Body
  role_given : String → String → Body
  user_shown : User → Body
  current_user : User → List UserRoleAssignment → Option Tenant → Body
  -- the handler panics
  panic : Body

pub record Reply : Type 0 where
  pub cookie : Cookie
  pub body : Body

-- What a middleware does: it answers, or passes the request on.
pub data Gate : Type 0 where
  stop : Reply → Gate
  pass : Context → Gate

abbrev pub reply : Body → Reply
reply b = record { cookie = untouched; body = b }

abbrev pub respond_error : ℕ → String → Reply
respond_error status shown = reply (json_error status shown)

unfoldable pub get_ip_address : Request → String
get_ip_address r =
    if not (r.forwarded_for == "")
    then r.forwarded_for
    else if not (r.real_ip == "")
    then r.real_ip
    else r.remote_addr

abbrev pub tenant_or_empty : Option String → String
tenant_or_empty none = ""
tenant_or_empty (some t) = t

unfoldable pub csrf_middleware : Request → Option Reply
csrf_middleware r =
    if r.method == "GET" || r.method == "HEAD" || r.method == "OPTIONS" || r.method == "TRACE"
    then none
    else if r.csrf_header == ""
    then some (
        respond_error 403
          "CSRF protection: X-CSRF-Token header is required for state-changing operations")
    else none

unfoldable pub require_tenant : Context → Option Reply
require_tenant c =
    if c.tenant_id == ""
    then some (respond_error 400 "tenant_id or X-Tenant-ID header is required")
    else none

-- The text of the warning takes the first 8 bytes of both identifiers, and panics if one is shorter.
unfoldable pub reject_tenant_header : Session → Gate
unfolding byte_len
reject_tenant_header sess =
    if ltb (byte_len sess.id) 8 || ltb (byte_len sess.user_id) 8
    then stop (record { cookie = untouched; body = panic })
    else stop (
        respond_error 400
          "X-Tenant-ID header is not allowed on authenticated requests; tenant is derived from session")

abbrev pub context_of : Session → Context
context_of sess = record {
  user_id = sess.user_id;
  session_id = sess.id;
  tenant_id = tenant_or_empty sess.tenant_id;
}

module _ ⦃env : Env⦄ where
  -- `AuthMiddleware` once the session is found.
  unfoldable pub admit_session : Handler → Request → Session → M Gate
  unfolding reject_tenant_header
  admit_session h r sess =
      if h.mode == "admin" && not (sess.namespace == "admin")
      then pure (stop (respond_error 403 "invalid session namespace for admin plane"))
      else (do
        attempt (Sessions.refresh h.session_service r.session_cookie)
        pure (if r.tenant_header == "" then pass (context_of sess) else reject_tenant_header sess))

  unfoldable pub auth_middleware : Handler → Request → M Gate
  unfolding admit_session
  auth_middleware h r =
      if r.session_cookie == "" then pure (stop (respond_error 401 "not authenticated")) else (do
        found ← attempt (Sessions.get h.session_service r.session_cookie)
        elim found [
          | err _ ↦ pure (
              stop
                (record { cookie = cleared; body = json_error 401 "invalid or expired session" }))
          | ok sess ↦ admit_session h r sess
        ])
