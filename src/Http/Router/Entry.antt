-- ===== src/Http/Router/Entry.antt =====
-- Login and logout leave the roles, their assignments and the clients as they are
-- (internal/transport/http/handlers.go).
use opentrusty.Store.Sessions as Repo
use opentrusty.Identity.Service as Accounts
use opentrusty.Session as Lives
use opentrusty.Http.Login as Logins
use opentrusty.Store.Users
use opentrusty.Prelude.{
  Bool-cases, Option, Option-cases, String, arith, if◌then◌else◌, inl, inr, none, some, ◌==◌,
}
use opentrusty.Authz.{has_permission}
use opentrusty.Authz.Permissions.{platform_manage_tenants, tenant_manage_users}
use opentrusty.Authz.Tables.{get_session-Keeps, has_permission-Keeps, tables}
use opentrusty.Domain.Authz.{scope_platform, scope_tenant}
use opentrusty.Domain.Identity.{User}
use opentrusty.Http.{Handler, Request, get_ip_address, tenant_or_empty}
use opentrusty.World.{Env, tick}
use opentrusty.World.Frame.{Keeps}
use opentrusty.World.Laws.{Outcome-cases}

module _ ⦃env : Env⦄ where
  record_failure-Keeps :
      (s : Accounts.Service) (tenant : String) (user : User)
      → Keeps tables (Accounts.record_failure s tenant user)
  unfolding Accounts.record_failure Accounts.lockout_end Users.update_lockout
  record_failure-Keeps s tenant user w = ground arith

  record_success-Keeps :
      (tenant : String) (user : User) → Keeps tables (Accounts.record_success tenant user)
  unfolding Accounts.record_success Users.update_lockout
  record_success-Keeps tenant user w = ground arith

  authenticate_user-Keeps :
      (s : Accounts.Service) (tenant : String) (user : User) (password : String)
      → Keeps tables (Accounts.authenticate_user s tenant user password)
  unfolding Accounts.authenticate_user Accounts.is_locked Users.get_credentials
  authenticate_user-Keeps s tenant user password w = ground (
    arith,
    record_failure-Keeps s tenant user (tick w),
    record_failure-Keeps s tenant user (tick (tick w)),
    record_success-Keeps tenant user (tick w),
    record_success-Keeps tenant user (tick (tick w)),
  )

  authenticate-Keeps :
      (s : Accounts.Service) (tenant email password : String)
      → Keeps tables (Accounts.authenticate s tenant email password)
  unfolding Accounts.authenticate Accounts.unknown_user Users.get_by_email
  authenticate-Keeps s tenant email password w =
      elim (Outcome-cases (Users.get_by_email (Accounts.tenant_of tenant) email w)) [
        | inr (x, u, e) ↦ ground arith
        | inl (user, u, e) ↦ ground (arith, authenticate_user-Keeps s tenant user password u)
      ]

  has_admin_role-Keeps : (user tenant : String) → Keeps tables (Logins.has_admin_role user tenant)
  unfolding Logins.has_admin_role
  has_admin_role-Keeps user tenant w =
      let k = has_permission-Keeps user scope_platform none platform_manage_tenants w in
      elim (Outcome-cases (has_permission user scope_platform none platform_manage_tenants w)) [
        | inr (x, u, e) ↦
            ground
              (arith, has_permission-Keeps user scope_tenant (some tenant) tenant_manage_users u)
        | inl (b, u, e) ↦
            ground
              (arith, has_permission-Keeps user scope_tenant (some tenant) tenant_manage_users u)
      ]

  create_session-Keeps :
      (s : Lives.Service) (tenant : Option String) (user ip agent space : String)
      → Keeps tables (Lives.create s tenant user ip agent space)
  unfolding Lives.create Repo.create
  create_session-Keeps s tenant user ip agent space w = ground arith

  destroy-Keeps : (id : String) → Keeps tables (Lives.destroy id)
  unfolding Lives.destroy Repo.delete
  destroy-Keeps id w = ground arith

  start_session-Keeps :
      (h : Handler) (r : Request) (user : User) → Keeps tables (Logins.start_session h r user)
  unfolding Logins.start_session
  start_session-Keeps h r user w =
      let space : String = if h.mode == "auth" then "auth" else "admin" in
      let ip = get_ip_address r in
      let v = (Lives.destroy r.session_cookie w).1 in
      elim (Bool-cases (r.session_cookie == "")) [
        | inl e ↦ ground (
          arith,
          create_session-Keeps h.session_service user.tenant_id user.id ip r.user_agent space w,
        )
        | inr e ↦ ground (
          arith,
          destroy-Keeps r.session_cookie w,
          create_session-Keeps h.session_service user.tenant_id user.id ip r.user_agent space v,
        )
      ]

  login_user-Keeps :
      (h : Handler) (r : Request) (email : String) (user : User)
      → Keeps tables (Logins.login_user h r email user)
  unfolding Logins.login_user
  login_user-Keeps h r email user w =
      let tenant = tenant_or_empty user.tenant_id in
      let k = has_admin_role-Keeps user.id tenant w in
      elim (Outcome-cases (Logins.has_admin_role user.id tenant w)) [
        | inr (x, u, e) ↦ ground arith
        | inl (b, u, e) ↦ ground (arith, start_session-Keeps h r user u)
      ]

  login_with-Keeps :
      (h : Handler) (r : Request) (email password : String)
      → Keeps tables (Logins.login_with h r email password)
  unfolding Logins.login_with
  login_with-Keeps h r email password w =
      let k = authenticate-Keeps h.identity_service "" email password w in
      elim (Outcome-cases (Accounts.authenticate h.identity_service "" email password w)) [
        | inr (x, u, e) ↦ ground arith
        | inl (user, u, e) ↦ ground (arith, login_user-Keeps h r email user u)
      ]

  pub login-Keeps : (h : Handler) (r : Request) → Keeps tables (Logins.login h r)
  unfolding Logins.login
  login-Keeps h r w = elim (Option-cases r.login_body) [
    | inl e ↦ ground arith
    | inr ((email, password), e) ↦ ground (arith, login_with-Keeps h r email password w)
  ]

  pub logout-Keeps : (h : Handler) (r : Request) → Keeps tables (Logins.logout h r)
  unfolding Logins.logout Lives.destroy Repo.delete
  logout-Keeps h r w =
      let k = get_session-Keeps h.session_service r.session_cookie w in
      elim (Outcome-cases (Lives.get h.session_service r.session_cookie w)) [
        | inr (x, u, e) ↦ ground arith
        | inl (sess, u, e) ↦ ground arith
      ]
