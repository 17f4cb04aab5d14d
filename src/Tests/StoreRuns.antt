-- ===== src/Tests/StoreRuns.antt =====
-- Runs of the repositories: sessions as a map, the keys of the assignments, and a code that two
-- exchanges redeem.
use opentrusty.Store.Assignments
use opentrusty.Store.Roles
use opentrusty.Store.TenantRoles.Constraints as Constraints
use opentrusty.Prelude.{List, [], arith, inl, none, refl, true, ◌∷◌, ◌≡◌}
use opentrusty.Domain.Authz.{Assignment}
use opentrusty.Oauth2.Exchange.{redeem_code}
use opentrusty.Oauth2.Exchange.Checks.{Matches}
use opentrusty.Oauth2.Exchange.Race.{find_code, mark_code, redeem_twice}
use opentrusty.Store.Sessions.AsMap.{
  Call, answers, deletes_expired, deletes_user, map_answers, reads, view,
}
use opentrusty.Store.Sessions.AsMap.Refinement.{answers-map_answers}
use opentrusty.Tests.Scene.{demo, granted_code, scene, with_code}
use opentrusty.World.{World, ok}

abbrev some_calls : List Call
some_calls = reads "s1" ∷ deletes_user "alice" ∷ reads "s1" ∷ deletes_expired ∷ []

answers-map_answers_example :
    answers ⦃env = demo⦄ some_calls scene
    ≡ map_answers ⦃env = demo⦄ some_calls scene.events (view scene)
answers-map_answers_example =
    answers-map_answers ⦃env = demo⦄ some_calls scene (view scene) refl (λ x. refl)

abbrev root_grant : Assignment
root_grant = record {
  id = "a2";
  user_id = "root";
  role_id = "admin";
  scope = "platform";
  scope_context_id = none;
  granted_at = 0;
  granted_by = "";
}

Reach-is_consistent_example :
    Constraints.is_consistent
      (Roles.delete ⦃env = demo⦄ "viewer"
        (Assignments.grant ⦃env = demo⦄ root_grant scene).1).1.assignments
    ≡ true
Reach-is_consistent_example =
    Constraints.Reach-is_consistent ⦃env = demo⦄ {w = scene}
      (Constraints.then_step
        (Constraints.then_step Constraints.here (Constraints.granting root_grant refl))
        (Constraints.deleting_role "viewer" refl))
      refl

redeem_twice_example :
    (u v : World) × (find_code ⦃env = demo⦄ with_code scene ≡ (ok granted_code, u))
    × (redeem_code ⦃env = demo⦄ with_code u ≡ (ok granted_code, v))
    × ((mark_code ⦃env = demo⦄ with_code.code v).0 ≡ ok tt)
redeem_twice_example =
    redeem_twice ⦃env = demo⦄ with_code with_code granted_code scene (λ n. refl) refl refl refl
      (omega arith) (omega arith) matching matching
  where
    matching : Matches ⦃env = demo⦄ with_code granted_code
    matching = record { same_client = refl; same_uri = refl; verified = inl refl }
