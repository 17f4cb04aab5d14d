-- ===== src/Identity/Bootstrap.antt =====
-- `BootstrapService` of internal/identity/bootstrap.go. The two variables of the environment are
-- arguments.
pub mod Once
use Prim.Native.String.{◌++◌ as append}
use opentrusty.Store.Assignments
use opentrusty.Store.Users
use opentrusty.Identity.Service as Accounts
use opentrusty.Prelude.{String, [], if◌then◌else◌, none, ◌==◌, ◌∷◌}
use opentrusty.Domain.Audit.{event, text}
use opentrusty.Domain.Authz.{scope_platform}
use opentrusty.Domain.Errors.{wrapped}
use opentrusty.Domain.Identity.{Profile, User}
use opentrusty.Identity.Service.{tenant_of}
use opentrusty.World.{
  Env, M, attempt, err, log, new_uuid, ok, or_raise, or_raise_unless_panic, pure, read_entropy,
  skip, time_now, ◌>>=◌, ◌>>◌,
}

-- `RoleIDPlatformAdmin` and `RoleIDTenantAdmin` of internal/rbac/constants.go
abbrev pub platform_admin_id : String
platform_admin_id = "20000000-0000-0000-0000-000000000001"

abbrev admin_profile : Profile
admin_profile = record {
  given_name = "Platform";
  family_name = "Admin";
  full_name = "Platform Admin";
  nickname = "";
  picture = "";
  locale = "";
  timezone = "";
}

module _ ⦃env : Env⦄ where
  unfoldable pub create_admin : Accounts.Service → String → String → M User
  create_admin s tenant_id email = do
    bytes ← or_raise (read_entropy 16) (wrapped "failed to generate random password")
    let password = append (env.base64_raw_url bytes) "!"
    user ←
        or_raise (Accounts.provision_identity tenant_id email admin_profile)
          (wrapped "failed to provision bootstrap user")
    or_raise_unless_panic (Accounts.add_password s user.id password)
        (wrapped "failed to set bootstrap user password")
    pure user

  unfoldable pub find_or_create : Accounts.Service → String → String → M User
  unfolding create_admin
  find_or_create s tenant_id email = do
    found ← attempt (Users.get_by_email (tenant_of tenant_id) email)
    elim found [ ok user ↦ pure user | err _ ↦ create_admin s tenant_id email ]

  unfoldable pub assign_admin : String → String → User → M (Unit {0})
  assign_admin tenant_id email user = do
    id ← new_uuid
    now ← time_now
    or_raise
        (Assignments.grant (record {
          id = id;
          user_id = user.id;
          role_id = platform_admin_id;
          scope = scope_platform;
          scope_context_id = none;
          granted_at = now;
          granted_by = "";
        }))
        (wrapped "failed to grant platform admin role during bootstrap")
    log (
        event "platform_admin_bootstrap" tenant_id user.id "platform" (
          ("email", text email)
          ∷ ("tenant_id", text tenant_id)
          ∷ ("role_id", text platform_admin_id)
          ∷ []))

  unfoldable pub bootstrap : Accounts.Service → String → String → M (Unit {0})
  unfolding find_or_create assign_admin
  bootstrap s email tenant_id = if email == "" then skip else (do
    exists ←
        or_raise (Assignments.check_exists platform_admin_id scope_platform none)
          (wrapped "failed to check for existing platform admin")
    if exists
        then skip
        else (do user ← find_or_create s tenant_id email; assign_admin tenant_id email user))
