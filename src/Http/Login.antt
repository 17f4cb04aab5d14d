-- ===== src/Http/Login.antt =====
-- `Login` and `Logout` of internal/transport/http/handlers.go.
pub mod Admins
use opentrusty.Session as Sessions
use opentrusty.Identity.Service as Accounts
use opentrusty.Prelude.{
  Bool, String, [], false, if◌then◌else◌, none, not, some, true, ◌==◌, ◌||◌, ◌∷◌,
}
use opentrusty.Authz.{has_permission}
use opentrusty.Authz.Permissions.{platform_manage_tenants, tenant_manage_users}
use opentrusty.Domain.Audit.{Event, event, text}
use opentrusty.Domain.Authz.{scope_platform, scope_tenant}
use opentrusty.Domain.Identity.{User}
use opentrusty.Http.{
  Handler, Reply, Request, cleared, get_ip_address, holding, logged_in, logged_out, respond_error,
  tenant_or_empty,
}
use opentrusty.World.{
  Env, M, Result, attempt, attempt_unless_panic, err, log, ok, pure, skip, ◌>>=◌, ◌>>◌,
}

-- An event with the address and the agent of a request.
abbrev pub from_request : Request → Event → Event
from_request r e = record e { ip_address = get_ip_address r; user_agent = r.user_agent }

-- `err == nil && ok`
abbrev pub is_granted_ok : Result Bool → Bool
is_granted_ok (ok b) = b
is_granted_ok (err _) = false

module _ ⦃env : Env⦄ where
  -- The permission of a platform admin, or that of a tenant admin at the user's tenant.
  unfoldable pub has_admin_role : String → String → M Bool
  has_admin_role user_id tenant_id = do
    platform ← attempt (has_permission user_id scope_platform none platform_manage_tenants)
    (if is_granted_ok platform then pure true else if tenant_id == "" then pure false else (do
      tenant ← attempt (has_permission user_id scope_tenant (some tenant_id) tenant_manage_users)
      pure (is_granted_ok tenant)))

  unfoldable pub start_session : Handler → Request → User → M Reply
  start_session h r user = do
    (if r.session_cookie == ""
        then skip
        else (do attempt (Sessions.destroy r.session_cookie); skip))
    made ← attempt (
        Sessions.create h.session_service user.tenant_id user.id (get_ip_address r) r.user_agent
          (if h.mode == "auth" then "auth" else "admin"))
    elim made [
      | err _ ↦ pure (respond_error 500 "failed to create session")
      | ok sess ↦ (do
        log (
            from_request r (
              event "login_success" (tenant_or_empty user.tenant_id) user.id "session"
                (("session_id", text sess.id) ∷ [])))
        pure (record { cookie = holding sess.id; body = logged_in user.id user.email }))
    ]

  unfoldable pub login_user : Handler → Request → String → User → M Reply
  login_user h r email user = do
    admin ← has_admin_role user.id (tenant_or_empty user.tenant_id)
    if admin then start_session h r user else (do
      log (
          event "login_failed" (tenant_or_empty user.tenant_id) user.id email
            (("reason", text "insufficient_privileges") ∷ []))
      pure (respond_error 403 "access denied: admin role required for UI login"))

  unfoldable pub login_with : Handler → Request → String → String → M Reply
  unfolding login_user
  login_with h r email password = do
    found ← attempt_unless_panic (Accounts.authenticate h.identity_service "" email password)
    elim found [
      | err _ ↦ (do
        log (event "login_failed" "" "" email (("reason", text "invalid_credentials") ∷ []))
        pure (respond_error 401 "invalid credentials"))
      | ok user ↦ login_user h r email user
    ]

  unfoldable pub login : Handler → Request → M Reply
  unfolding login_with
  login h r =
      if not (r.tenant_header == "") || not (r.query "tenant_id" == "")
      then pure (
          respond_error 400
            "tenant context must not be provided; derived from user record post-authentication")
      else elim r.login_body [
        | none ↦ pure (respond_error 400 "invalid request")
        | some (email, password) ↦ login_with h r email password
      ]

  unfoldable pub logout : Handler → Request → M Reply
  logout h r = if r.session_cookie == "" then pure (respond_error 401 "not authenticated") else (do
    found ← attempt (Sessions.get h.session_service r.session_cookie)
    elim found [
      | err _ ↦ skip
      | ok sess ↦ (do
        log (
            from_request r (
              event "logout" (tenant_or_empty sess.tenant_id) sess.user_id "session"
                (("session_id", text sess.id) ∷ [])))
        attempt (Sessions.destroy r.session_cookie)
        skip)
    ]
    pure (record { cookie = cleared; body = logged_out }))
