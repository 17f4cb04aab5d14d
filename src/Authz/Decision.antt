-- ===== src/Authz/Decision.antt =====
-- The decision of `HasPermission` (internal/authz/service.go), against the tables.
use opentrusty.Store.Assignments
use opentrusty.Store.Roles
use opentrusty.Prelude.{
  Bool, List, Option, String, [], any_row, arith, false, find_row, find_rows, none, refl,
  same_text?, some, true, ◌&&◌, ◌==◌, ◌||◌, ◌∷◌, ◌≡◌,
}
use opentrusty.Authz.{any_grant, has_permission, in_scope, role_has_permission}
use opentrusty.Domain.Authz.{Assignment, scope_platform}
use opentrusty.World.{Env, World, ok, tick}
use opentrusty.World.Laws.{IsCalm}

-- The role of an assignment holds the permission, by the tables.
abbrev pub confers : World → String → Assignment → Bool
confers w permission a = elim (find_row (Roles.has_id a.role_id) w.roles) [
  | none ↦ false
  | some r ↦ role_has_permission (Roles.join w r) permission
]

-- An assignment on the platform reaches everything, another its own scope with its own context.
unfoldable pub covers : String → Option String → Assignment → Bool
covers scope context a =
    a.scope == scope_platform || a.scope == scope && same_text? a.scope_context_id context

pub in_scope-covers :
    (a : Assignment) (scope : String) (context : Option String)
    → in_scope a scope context ≡ covers scope context a
unfolding in_scope covers
in_scope-covers a scope context = ground arith

-- Some assignment of the user is in scope and confers the permission.
abbrev pub is_granted : World → String → String → Option String → String → Bool
is_granted w user scope context permission =
    any_row (λ a. covers scope context a && confers w permission a)
      (find_rows (λ a. a.user_id == user) w.assignments)

module _ ⦃env : Env⦄ (scope : String) (context : Option String) (permission : String) where
  any_grant_sound :
      (items : List Assignment) (w w' : World)
      → any_grant items scope context permission w ≡ (ok true, w')
      → any_row (λ a. covers scope context a && confers w permission a) items ≡ true
  unfolding any_grant Roles.get_by_id
  any_grant_sound [] w w' h = ground arith
  any_grant_sound (a ∷ more) w w' h = ground (
    arith,
    in_scope-covers a scope context,
    any_grant_sound more (tick w) w',
    any_grant_sound more w w',
  )

  any_grant_complete :
      IsCalm env
      → (items : List Assignment) (w : World)
      → (any_grant items scope context permission w).0
        ≡ ok (any_row (λ a. covers scope context a && confers w permission a) items)
  unfolding any_grant Roles.get_by_id
  any_grant_complete calm [] w = refl
  any_grant_complete calm (a ∷ more) w = ground (
    arith,
    in_scope-covers a scope context,
    calm w.events,
    any_grant_complete calm more (tick w),
    any_grant_complete calm more w,
  )

  -- Whatever fails, a permission that is reported is granted by the tables: by an assignment of
  -- the user that is in scope, to a role that holds it.
  pub has_permission-is_granted :
      (user : String) (w w' : World)
      → has_permission user scope context permission w ≡ (ok true, w')
      → is_granted w user scope context permission ≡ true
  unfolding has_permission Assignments.list_for_user
  has_permission-is_granted user w w' h =
      ground (arith, any_grant_sound (find_rows (λ a. a.user_id == user) w.assignments) (tick w) w')

  -- If no statement fails, `has_permission` returns exactly what the tables grant.
  pub has_permission-eq-is_granted :
      IsCalm env
      → (user : String) (w : World)
      → (has_permission user scope context permission w).0
        ≡ ok (is_granted w user scope context permission)
  unfolding has_permission Assignments.list_for_user
  has_permission-eq-is_granted calm user w = ground (
    arith,
    calm w.events,
    any_grant_complete calm (find_rows (λ a. a.user_id == user) w.assignments) (tick w),
  )
