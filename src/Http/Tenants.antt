-- ===== src/Http/Tenants.antt =====
-- The handlers of internal/transport/http/tenant_handler.go and tenant_handler_list.go. The tenant,
-- the user and the role of a path are arguments; a body that cannot be parsed is `none`.
use opentrusty.Identity.Service as Accounts
use opentrusty.Tenant as Tenancy
use Prim.Native.String.{◌++◌ as append}
use opentrusty.Prelude.{
  Bool, Option, String, [], if◌then◌else◌, inl, inr, none, not, some, ◌==◌, ◌∷◌, ◌⊎◌,
}
use opentrusty.Authz.{has_permission}
use opentrusty.Authz.Permissions.{platform_manage_tenants, tenant_manage_users, tenant_view}
use opentrusty.Domain.Audit.{event, text}
use opentrusty.Domain.Authz.{scope_platform, scope_tenant}
use opentrusty.Domain.Errors.{
  Error, invalid_tenant_name, tenant_already_exists, tenant_role_already_exists, user_not_found,
}
use opentrusty.Domain.Identity.{Profile, User}
use opentrusty.Domain.Tenants.{role_tenant_member, role_tenant_owner}
use opentrusty.Http.{
  Context, Handler, Reply, json_error_of, reply, respond_error, role_given, status_shown,
  tenant_list, tenant_made, tenant_users,
}
use opentrusty.Http.Login.{is_granted_ok}
use opentrusty.World.{Env, M, attempt, attempt_unless_panic, err, log, ok, pure, ◌>>=◌, ◌>>◌}

-- `ProvisionUserRequest`
pub record Provisioning : Type 0 where
  pub email : String
  pub password : String
  pub given_name : String
  pub family_name : String
  pub role : String

-- The profile of a user that is provisioned.
unfoldable pub profile_of : Provisioning → Profile
profile_of req = record {
  given_name = req.given_name;
  family_name = req.family_name;
  full_name = append req.given_name (append " " req.family_name);
  nickname = "";
  picture = "";
  locale = "";
  timezone = "";
}

abbrev role_or_member : String → String
role_or_member role = if role == "" then role_tenant_member else role

unfoldable pub refuse_creation : Error → Reply
refuse_creation invalid_tenant_name = respond_error 400 "invalid tenant name"
refuse_creation tenant_already_exists = respond_error 409 "tenant with this name already exists"
refuse_creation _ = respond_error 500 "failed to create tenant"

unfoldable pub refuse_role : Error → Reply
refuse_role tenant_role_already_exists = respond_error 409 "role already assigned"
refuse_role e = reply (json_error_of 500 "failed to assign role: " e)

module _ ⦃env : Env⦄ where
  -- `allowed, err := h.authzService.HasPermission(…)` with `err != nil || !allowed` refused.
  unfoldable pub is_allowed : String → String → Option String → String → M Bool
  is_allowed user scope context permission = do
    allowed ← attempt (has_permission user scope context permission)
    pure (is_granted_ok allowed)

  unfoldable pub create_tenant : Context → Option String → M Reply
  unfolding is_allowed refuse_creation
  create_tenant c body = do
    allowed ← is_allowed c.user_id scope_platform none platform_manage_tenants
    if not allowed
        then pure (respond_error 403 "platform admin administrative access required")
        else elim body [
          | none ↦ pure (respond_error 400 "invalid request body")
          | some name ↦ (do
            made ← attempt (Tenancy.create_tenant name c.user_id)
            elim made [
              | err e ↦ pure (refuse_creation e)
              | ok t ↦ (do
                log (
                    event "tenant_created" "" c.user_id "tenant"
                      (("tenant_id", text t.id) ∷ ("tenant_name", text t.name) ∷ []))
                pure (reply (tenant_made t)))
            ])
        ]

  unfoldable pub list_tenants : Context → M Reply
  unfolding is_allowed
  list_tenants c = do
    allowed ← is_allowed c.user_id scope_platform none platform_manage_tenants
    if not allowed
        then pure (respond_error 403 "platform admin administrative access required")
        else (do
          found ← attempt (Tenancy.list_tenants 100 0)
          pure (elim found [
            | err _ ↦ respond_error 500 "failed to list tenants"
            | ok ts ↦ reply (tenant_list ts)
          ]))

  -- A user that is not known yet: created, and given a password.
  unfoldable pub provision_new : Handler → String → Provisioning → M (User ⊎ Reply)
  unfolding profile_of
  provision_new h tenant_id req =
      if req.password == ""
      then pure (inr (respond_error 400 "password is required for new user"))
      else (do
        made ← attempt (Accounts.provision_identity tenant_id req.email (profile_of req))
        elim made [
          | err e ↦ pure (inr (reply (json_error_of 500 "failed to provision user: " e)))
          | ok user ↦ (do
            set ←
                attempt_unless_panic (Accounts.add_password h.identity_service user.id req.password)
            pure (elim set [
              | err e ↦ inr (reply (json_error_of 400 "failed to set password: " e))
              | ok _ ↦ inl user
            ]))
        ])

  -- What the handler does with an error of `GetByEmail`.
  unfoldable pub provision_or_fail : Handler → String → Provisioning → Error → M (User ⊎ Reply)
  unfolding provision_new
  provision_or_fail h tenant_id req user_not_found = provision_new h tenant_id req
  provision_or_fail h tenant_id req e =
      pure (inr (reply (json_error_of 500 "failed to check user: " e)))

  unfoldable pub find_or_provision : Handler → String → Provisioning → M (User ⊎ Reply)
  unfolding provision_or_fail
  find_or_provision h tenant_id req = do
    found ← attempt (Accounts.get_by_email tenant_id req.email)
    elim found [ ok user ↦ pure (inl user) | err e ↦ provision_or_fail h tenant_id req e ]

  unfoldable pub provision_with : Handler → Context → String → Provisioning → M Reply
  unfolding find_or_provision refuse_role
  provision_with h c tenant_id req = do
    who ← find_or_provision h tenant_id req
    elim who [
      | inr refused ↦ pure refused
      | inl user ↦ (do
        given ← attempt (Tenancy.assign_role tenant_id user.id (role_or_member req.role) c.user_id)
        pure (elim given [
          | err e ↦ refuse_role e
          | ok _ ↦ reply (role_given user.id (role_or_member req.role))
        ]))
    ]

  -- The body is read before the permission is checked.
  unfoldable pub provision_tenant_user : Handler → Context → String → Option Provisioning → M Reply
  unfolding is_allowed provision_with
  provision_tenant_user h c tenant_id body =
      if tenant_id == "" then pure (respond_error 400 "tenant_id is required") else elim body [
        | none ↦ pure (respond_error 400 "invalid request body")
        | some req ↦ (do
          allowed ← is_allowed c.user_id scope_tenant (some tenant_id) tenant_manage_users
          if not allowed
              then pure (respond_error 403 "tenant administrative access required")
              else provision_with h c tenant_id req)
      ]

  unfoldable pub assign_tenant_role : Context → String → String → Option String → M Reply
  unfolding is_allowed
  assign_tenant_role c tenant_id user_id body = elim body [
    | none ↦ pure (respond_error 400 "invalid request body")
    | some role ↦ (do
      allowed ← is_allowed c.user_id scope_tenant (some tenant_id) tenant_manage_users
      if not allowed then pure (respond_error 403 "tenant administrative access required") else (do
        given ← attempt (Tenancy.assign_role tenant_id user_id role c.user_id)
        pure (elim given [
          | err _ ↦ respond_error 500 "failed to assign role"
          | ok _ ↦ reply (status_shown "assigned")
        ])))
  ]

  unfoldable pub revoke_tenant_role : Context → String → String → String → M Reply
  unfolding is_allowed
  revoke_tenant_role c tenant_id user_id role = do
    allowed ← is_allowed c.user_id scope_tenant (some tenant_id) tenant_manage_users
    if not allowed then pure (respond_error 403 "tenant administrative access required") else (do
      gone ← attempt (Tenancy.revoke_role tenant_id user_id role)
      pure (elim gone [
        | err e ↦ reply (json_error_of 500 "" e)
        | ok _ ↦ reply (status_shown "revoked")
      ]))

  unfoldable pub list_tenant_users : Context → String → M Reply
  unfolding is_allowed
  list_tenant_users c tenant_id = do
    allowed ← is_allowed c.user_id scope_tenant (some tenant_id) tenant_view
    if not allowed then pure (respond_error 403 "tenant view access required") else (do
      found ← attempt (Tenancy.get_tenant_users tenant_id)
      pure
          (elim found [ err e ↦ reply (json_error_of 500 "" e) | ok rs ↦ reply (tenant_users rs) ]))

  unfoldable pub assign_tenant_owner : Context → String → Option String → M Reply
  unfolding is_allowed
  assign_tenant_owner c tenant_id body = do
    allowed ← is_allowed c.user_id scope_platform none platform_manage_tenants
    if not allowed
        then pure (respond_error 403 "platform administrative access required")
        else elim body [
          | none ↦ pure (respond_error 400 "invalid request body")
          | some owner ↦ (do
            given ← attempt (Tenancy.assign_role tenant_id owner role_tenant_owner c.user_id)
            elim given [
              | err e ↦ pure (reply (json_error_of 500 "failed to assign tenant owner: " e))
              | ok _ ↦ (do
                log (
                    event "role_assigned" tenant_id c.user_id "tenant"
                      (("role_id", text role_tenant_owner) ∷ ("target_user_id", text owner) ∷ []))
                pure (reply (status_shown "owner_assigned")))
            ])
        ]
