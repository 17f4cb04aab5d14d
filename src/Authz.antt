-- ===== src/Authz.antt =====
-- internal/authz: `Role.HasPermission` of models.go and `Service` of service.go.
pub mod Permissions
pub mod Decision
pub mod Isolation
pub mod Tables
use opentrusty.Store.Assignments
use opentrusty.Store.Roles
use opentrusty.Store.Projects
use opentrusty.Prelude.{
  Bool, List, Option, String, [], false, if◌then◌else◌, map, same_text?, true, ◌&&◌, ◌++◌, ◌==◌,
  ◌||◌, ◌∷◌,
}
use opentrusty.Domain.Authz.{Assignment, Project, Role, scope_platform}
use opentrusty.Domain.Errors.{wrapped}
use opentrusty.World.{Env, M, Result, attempt, err, ok, or_raise, pure, ◌>>=◌, ◌>>◌}

-- `Role.HasPermission`
unfoldable pub grants : List String → String → Bool
grants [] permission = false
grants (p ∷ ps) permission = p == "*" || p == permission || grants ps permission

abbrev pub role_has_permission : Role → String → Bool
role_has_permission r permission = grants r.permissions permission

-- The scope check of `HasPermission`.
unfoldable pub in_scope : Assignment → String → Option String → Bool
in_scope a scope context =
    if a.scope == scope_platform
    then true
    else a.scope == scope && same_text? a.scope_context_id context

abbrev pub mem_text : String → List String → Bool
mem_text s [] = false
mem_text s (t ∷ ts) = s == t || mem_text s ts

pub record UserRoleAssignment : Type 0 where
  pub role_name : String
  pub scope : String
  pub context : Option String

pub record ProjectInfo : Type 0 where
  pub id : String
  pub name : String
  pub description : String

pub record UserInfoClaims : Type 0 where
  pub role_list : List String
  pub project_list : List ProjectInfo

-- A role that cannot be read is passed over.
abbrev with_role : {A : Type 0} → Result Role → (Role → A) → A → A
with_role (ok r) f d = f r
with_role (err e) f d = d

module _ ⦃env : Env⦄ where
  -- The loop of `HasPermission`.
  unfoldable pub any_grant : List Assignment → String → Option String → String → M Bool
  any_grant [] scope context permission = pure false
  any_grant (a ∷ more) scope context permission =
      let rest = any_grant more scope context permission in
      if in_scope a scope context
      then (do
        role ← attempt (Roles.get_by_id a.role_id)
        with_role role (λ r. if role_has_permission r permission then pure true else rest) rest)
      else rest

  unfoldable pub has_permission : String → String → Option String → String → M Bool
  has_permission user scope context permission = do
    found ← or_raise (Assignments.list_for_user user) (wrapped "failed to get user assignments")
    any_grant found scope context permission

  -- The loop of `GetUserRoles`; the map is a list with no repetition, in the order of the loop.
  collect_names : List Assignment → List String → M (List String)
  collect_names [] seen = pure seen
  collect_names (a ∷ more) seen = do
    role ← attempt (Roles.get_by_id a.role_id)
    collect_names more
        (with_role role (λ r. if mem_text r.name seen then seen else seen ++ r.name ∷ []) seen)

  unfoldable pub get_user_roles : String → M (List String)
  unfolding collect_names
  get_user_roles user = do
    found ← or_raise (Assignments.list_for_user user) (wrapped "failed to get user assignments")
    collect_names found []

  unfoldable pub collect_assignments : List Assignment → M (List UserRoleAssignment)
  collect_assignments [] = pure []
  collect_assignments (a ∷ more) = do
    role ← attempt (Roles.get_by_id a.role_id)
    rest ← collect_assignments more
    pure (
        with_role role
          (λ r. record { role_name = r.name; scope = a.scope; context = a.scope_context_id } ∷ rest)
          rest)

  unfoldable pub get_user_role_assignments : String → M (List UserRoleAssignment)
  unfolding collect_assignments
  get_user_role_assignments user = do
    found ← or_raise (Assignments.list_for_user user) (wrapped "failed to get user assignments")
    collect_assignments found

  unfoldable pub get_user_projects : String → M (List Project)
  get_user_projects user = Projects.list_by_user user

  unfoldable pub build_user_info_claims : String → M UserInfoClaims
  build_user_info_claims user = do
    names ← or_raise (get_user_roles user) (wrapped "failed to get user roles")
    found ← or_raise (get_user_projects user) (wrapped "failed to get user projects")
    pure (record {
      role_list = names;
      project_list =
          map (λ p. record { id = p.id; name = p.name; description = p.description }) found;
    })
