-- ===== src/Tests/AuthzRuns.antt =====
-- Decisions about permissions in the scene.
use opentrusty.Store.Roles
use opentrusty.Prelude.{==_iff, arith, false, refl, some, true, ◌≡◌, ◌≢◌}
use opentrusty.Authz.{grants, has_permission}
use opentrusty.Authz.Decision.{covers, has_permission-eq-is_granted, is_granted}
use opentrusty.Authz.Isolation.{has_permission_isolated}
use opentrusty.Domain.Authz.{scope_tenant}
use opentrusty.Tests.Scene.{demo, scene}
use opentrusty.World.{ok}

has_permission-eq-is_granted_example :
    (has_permission ⦃env = demo⦄ "alice" scope_tenant (some "t1") "tenant:view" scene).0
    ≡ ok (is_granted scene "alice" scope_tenant (some "t1") "tenant:view")
has_permission-eq-is_granted_example =
    has_permission-eq-is_granted ⦃env = demo⦄ scope_tenant (some "t1") "tenant:view" (λ n. refl)
      "alice" scene

granted_test : is_granted scene "alice" scope_tenant (some "t1") "tenant:view" ≡ true
unfolding covers grants Roles.role_names
granted_test = refl

refused_test : is_granted scene "alice" scope_tenant (some "t2") "tenant:view" ≡ false
unfolding covers
refused_test = refl

has_permission_isolated_example :
    has_permission ⦃env = demo⦄ "alice" scope_tenant (some "t2") "tenant:view" scene
    ≢ (ok true, scene)
has_permission_isolated_example =
    has_permission_isolated ⦃env = demo⦄ "alice" "t2" "tenant:view" scene scene
      ((λ e. (refl, λ h. ground (arith, ==_iff "t1" "t2"))), tt)
