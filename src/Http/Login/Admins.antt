-- ===== src/Http/Login/Admins.antt =====
-- Who gets a session from `Login` (internal/transport/http/handlers.go).
use opentrusty.Identity.Service as Accounts
use opentrusty.Identity.Login as Logins
use opentrusty.Store.Users
use opentrusty.Prelude.{
  String, arith, false, find_row, find_row_passes, inl, inr, none, same_text?_iff, some, subst,
  true, ◌≡◌,
}
use opentrusty.Authz.{has_permission}
use opentrusty.Authz.Decision.{has_permission-is_granted, is_granted}
use opentrusty.Authz.Permissions.{platform_manage_tenants}
use opentrusty.Domain.Authz.{scope_platform}
use opentrusty.Domain.Identity.{User}
use opentrusty.Http.{Cookie, Handler, Request, logged_in}
use opentrusty.Http.Login.{has_admin_role, login, login_user, login_with, start_session}
use opentrusty.World.{Env, World, ok}
use opentrusty.World.Laws.{Outcome-cases}

module _ ⦃env : Env⦄ where
  start_session_sound :
      (h : Handler) (r : Request) (user : User) (uid email : String) (cookie : Cookie)
      (w w' : World)
      → start_session h r user w ≡ (ok (record { cookie = cookie; body = logged_in uid email }), w')
      → uid ≡ user.id
  unfolding start_session
  start_session_sound h r user uid email cookie w w' e = ground arith

  has_admin_role_sound :
      (uid : String) (w w' : World)
      → has_admin_role uid "" w ≡ (ok true, w')
      → is_granted w uid scope_platform none platform_manage_tenants ≡ true
  unfolding has_admin_role
  has_admin_role_sound uid w w' e =
      elim (Outcome-cases (has_permission uid scope_platform none platform_manage_tenants w)) [
        | inr (x, u, f) ↦ absurd (ground arith)
        | inl (b, u, f) ↦
            has_permission-is_granted scope_platform none platform_manage_tenants uid w u
              (ground arith)
      ]

  -- A login that succeeds is of a stored user who belongs to no tenant, with the address of the
  -- body and the password verified, and whom the tables grant the management of tenants on the
  -- platform.
  pub login_sound :
      (h : Handler) (r : Request) (email password uid shown : String) (cookie : Cookie)
      (w w' : World)
      → r.login_body ≡ some (email, password)
      → login h r w ≡ (ok (record { cookie = cookie; body = logged_in uid shown }), w')
      → (row : User) × (find_row (Users.has_email none email) w.users ≡ some row)
        × (row.tenant_id ≡ none)
        × (uid ≡ row.id)
        × Logins.Verifies w uid password
        × (is_granted w uid scope_platform none platform_manage_tenants ≡ true)
  unfolding login login_with login_user Logins.Verifies
  login_sound h r email password uid shown cookie w w' b e =
      elim (Outcome-cases (Accounts.authenticate h.identity_service "" email password w)) [
        | inr (x, u, f) ↦ absurd (ground arith)
        | inl (user, u, f) ↦
            let (row, found, same, verified, logged) =
              Logins.authenticate_sound h.identity_service "" email password w u user f in
            let no_tenant : user.tenant_id ≡ none = ground (
              arith,
              find_row_passes (Users.has_email none email) w.users row found,
              same_text?_iff row.tenant_id none,
            ) in
            elim (Outcome-cases (has_admin_role user.id "" u)) [
              | inr (x, v, g) ↦ absurd (ground arith)
              | inl (false, v, g) ↦ absurd (ground arith)
              | inl (true, v, g) ↦
                  let is_user = start_session_sound h r user uid shown cookie v w' (ground arith) in
                  let granted = has_admin_role_sound user.id u v g in
                  (
                    row,
                    found,
                    ground arith,
                    ground arith,
                    rw is_user verified,
                    rw is_user (
                        subst
                          (λ v.
                            is_granted v user.id scope_platform none platform_manage_tenants ≡ true)
                          logged granted),
                  )
            ]
      ]
