-- ===== src/Http/Profile.antt =====
-- The handlers of internal/transport/http/handlers.go that show and change the user of a session,
-- the health check and the registration that is disabled. A body that cannot be parsed is `none`.
use opentrusty.Identity.Service as Accounts
use opentrusty.Tenant as Tenancy
use opentrusty.Prelude.{
  Bool, List, Option, String, [], if◌then◌else◌, none, not, some, ◌&&◌, ◌==◌, ◌∷◌,
}
use opentrusty.Authz.{UserRoleAssignment, get_user_role_assignments}
use opentrusty.Authz.Permissions.{user_change_password, user_read_profile, user_write_profile}
use opentrusty.Domain.Audit.{event}
use opentrusty.Domain.Authz.{scope_platform}
use opentrusty.Domain.Errors.{Error, invalid_credentials, weak_password}
use opentrusty.Domain.Identity.{Profile, User}
use opentrusty.Domain.Tenants.{Tenant}
use opentrusty.Http.{
  Context, Handler, Reply, Request, current_user, health, message_shown, reply, respond_error,
  tenant_or_empty, user_shown,
}
use opentrusty.Http.Login.{from_request}
use opentrusty.Http.Tenants.{is_allowed}
use opentrusty.World.{
  Env, M, Result, attempt, attempt_unless_panic, err, log, ok, pure, ◌>>=◌, ◌>>◌,
}

unfoldable pub health_check : Reply
health_check = reply (health "pass" "opentrusty")

unfoldable pub register : Reply
register =
    respond_error 403
      "anonymous registration is disabled; admin accounts must be provisioned by platform administrators"

-- `switch err`
unfoldable pub refuse_password : Error → Reply
refuse_password invalid_credentials = respond_error 401 "invalid old password"
refuse_password weak_password = respond_error 400 "new password does not meet security requirements"
refuse_password _ = respond_error 500 "failed to change password"

abbrev pub assignments_or_none : Result (List UserRoleAssignment) → List UserRoleAssignment
assignments_or_none (ok xs) = xs
assignments_or_none (err _) = []

abbrev pub names_tenant : UserRoleAssignment → Bool
names_tenant a = a.scope == "tenant" && not (tenant_or_empty a.context == "")

module _ ⦃env : Env⦄ where
  -- The loop over the assignments: the first tenant that can be read.
  unfoldable pub current_tenant : List UserRoleAssignment → M (Option Tenant)
  current_tenant [] = pure none
  current_tenant (a ∷ more) =
      let rest = current_tenant more in
      if names_tenant a
      then (do
        found ← attempt (Tenancy.get_tenant (tenant_or_empty a.context))
        elim found [ ok t ↦ pure (some t) | err _ ↦ rest ])
      else rest

  -- The user with the assignments; those that cannot be read are none.
  unfoldable pub show_with_roles : String → User → M Reply
  unfolding current_tenant
  show_with_roles user_id user = do
    held ← attempt (get_user_role_assignments user_id)
    tenant ← current_tenant (assignments_or_none held)
    pure (reply (current_user user (assignments_or_none held) tenant))

  unfoldable pub get_current_user : Context → M Reply
  unfolding is_allowed show_with_roles
  get_current_user c = do
    allowed ← is_allowed c.user_id scope_platform none user_read_profile
    if not allowed then pure (respond_error 403 "read profile access required") else (do
      found ← attempt (Accounts.get_user c.user_id)
      elim found [
        | err _ ↦ pure (respond_error 404 "user not found")
        | ok user ↦ show_with_roles c.user_id user
      ])

  unfoldable pub get_profile : Context → M Reply
  unfolding is_allowed
  get_profile c = do
    allowed ← is_allowed c.user_id scope_platform none user_read_profile
    if not allowed then pure (respond_error 403 "read profile access required") else (do
      found ← attempt (Accounts.get_user c.user_id)
      pure (elim found [
        | err _ ↦ respond_error 404 "user not found"
        | ok user ↦ reply (user_shown user)
      ]))

  unfoldable pub update_profile : Context → Option Profile → M Reply
  unfolding is_allowed
  update_profile c body = do
    allowed ← is_allowed c.user_id scope_platform none user_write_profile
    if not allowed then pure (respond_error 403 "update profile access required") else elim body [
      | none ↦ pure (respond_error 400 "invalid request body")
      | some profile ↦ (do
        done ← attempt (Accounts.update_profile c.user_id profile)
        pure (elim done [
          | err _ ↦ respond_error 500 "failed to update profile"
          | ok _ ↦ reply (message_shown "profile updated successfully")
        ]))
    ]

  -- The old and the new password.
  unfoldable pub change_with : Handler → Request → Context → String → String → M Reply
  unfolding refuse_password
  change_with h r c old_password new_password = do
    done ←
        attempt_unless_panic
          (Accounts.change_password h.identity_service c.user_id old_password new_password)
    elim done [
      | err e ↦ pure (refuse_password e)
      | ok _ ↦ (do
        log (from_request r (event "password_changed" c.tenant_id c.user_id "user_credentials" []))
        pure (reply (message_shown "password changed successfully")))
    ]

  unfoldable pub change_password : Handler → Request → Context → Option (String × String) → M Reply
  unfolding is_allowed change_with
  change_password h r c body = do
    allowed ← is_allowed c.user_id scope_platform none user_change_password
    if not allowed then pure (respond_error 403 "change password access required") else elim body [
      | none ↦ pure (respond_error 400 "invalid request body")
      | some (old_password, new_password) ↦ change_with h r c old_password new_password
    ]
