-- ===== src/Authz/Isolation.antt =====
-- `HasPermission` (internal/authz/service.go) for users of other tenants.
use opentrusty.Prelude.{
  ==_iff, List, String, [], any_row, arith, false, find_rows, refl, same_text?_iff, some, true,
  ◌&&◌, ◌==◌, ◌∷◌, ◌≡◌, ◌≢◌,
}
use opentrusty.Authz.{has_permission}
use opentrusty.Authz.Decision.{confers, covers, has_permission-is_granted}
use opentrusty.Domain.Authz.{Assignment, scope_platform, scope_tenant}
use opentrusty.World.{Env, World, ok}

-- Every assignment of the user is for a tenant, and none for the tenant t.
abbrev pub IsOutside : String → String → List Assignment → Type 0
IsOutside user t [] = Unit
IsOutside user t (a ∷ more) =
    (a.user_id ≡ user → (a.scope ≡ scope_tenant) × (a.scope_context_id ≢ some t))
    × IsOutside user t more

not_granted_outside :
    (user t permission : String) (w : World) (items : List Assignment)
    → IsOutside user t items
    → any_row
        (λ a. covers scope_tenant (some t) a && confers w permission a)
        (find_rows (λ a. a.user_id == user) items)
      ≡ false
unfolding covers
not_granted_outside user t permission w [] h = refl
not_granted_outside user t permission w (a ∷ more) h = ground (
  arith,
  ==_iff a.user_id user,
  ==_iff a.scope scope_platform,
  ==_iff scope_tenant scope_platform,
  same_text?_iff a.scope_context_id (some t),
  not_granted_outside user t permission w more h.1,
)

module _ ⦃env : Env⦄ where
  -- A user all of whose assignments are for other tenants is never reported to hold a permission
  -- at the tenant t, whatever the roles hold and whatever fails.
  pub has_permission_isolated :
      (user t permission : String) (w w' : World)
      → IsOutside user t w.assignments
      → has_permission user scope_tenant (some t) permission w ≢ (ok true, w')
  has_permission_isolated user t permission w w' out h = ground (
    arith,
    has_permission-is_granted scope_tenant (some t) permission user w w' h,
    not_granted_outside user t permission w w.assignments out,
  )
